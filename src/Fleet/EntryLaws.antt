-- ===== src/Fleet/EntryLaws.antt =====
-- What a tick of services/entry/drain_service.py does to the nodes and routes of an entry.
use vpn_control_api.Base.{
  ℕ, ◌≡◌, ◌≢◌, refl, inl, inr, Bool, true, false, Option, none, some, [], ◌∷◌, ==_iff, is_id,
  if◌then◌else◌, ok, arith, Option-cases,
}
use vpn_control_api.Base.Table.{Table, lookup, lookup-modify}
use vpn_control_api.Routes.Schemas.{Route}
use vpn_control_api.Routes.StateMachine.{is_blocked}
use vpn_control_api.Fleet.Rows.{VpnNode, FleetDb}
use vpn_control_api.Fleet.EntryDrain.{
  EntryAutoDrainService, EntryAutoDrainResult, Candidate, drain_entry, try_undrain_entry,
  unblock_routes_for_entry, block_routes_for_entry, update_routes, to_block, to_unblock,
  blocked_row, unblocked_row,
}
use vpn_control_api.Fleet.EntryTick.{tick_unhealthy}

-- A loop over the routes changes the selected rows and no others.
pub lookup-update_routes :
    (k : ℕ) (selected : Route → Bool) (change : Route → Route) (t : Table Route)
    → lookup k (update_routes selected change t).0
      ≡ elim (lookup k t) [ none ↦ none | some r ↦ some (if selected r then change r else r) ]
unfolding lookup update_routes
lookup-update_routes k selected change [] = refl
lookup-update_routes k selected change ((id, r) ∷ t) =
    ground (arith, lookup-update_routes k selected change t)

-- The entry is out of service: it is draining, and every active route through it is blocked.
pub record IsOut (id : ℕ) (db : FleetDb) : Type 0 where
  pub draining : (n : VpnNode) → lookup id db.nodes ≡ some n → n.is_draining ≡ true
  pub off :
      (k : ℕ) (r : Route)
      → lookup k db.routes ≡ some r
      → is_id r.entry_node_id id ≡ true
      → r.is_active ≡ true
      → is_blocked r.health_status ≡ true

-- What the query has read of the node is its row.
abbrev pub IsCurrent : Candidate → FleetDb → Type 0
IsCurrent c db = lookup c.id db.nodes ≡ some c.entry

abbrev pub set_draining : Bool → VpnNode → VpnNode
set_draining is_draining n = record n { is_draining = is_draining }

one_entry : (entry : Option ℕ) (a b : ℕ) → is_id entry a ≡ true → is_id entry b ≡ true → a ≡ b
one_entry none a b p q = ground arith
one_entry (some e) a b p q = ground (arith, ==_iff e a, ==_iff e b)

pub tick_unhealthy-IsOut :
    (c : Candidate) (now : ℕ) (db : FleetDb) (result : EntryAutoDrainResult)
    → IsCurrent c db
    → IsOut c.id (tick_unhealthy c now db result).0
unfolding tick_unhealthy drain_entry block_routes_for_entry
tick_unhealthy-IsOut c now db result current = record {
  draining = λ n found. ground (arith, lookup-modify c.id c.id (set_draining true) db.nodes);
  off = λ k r found via active.
      ground (arith, lookup-update_routes k (to_block c.id) (blocked_row now) db.routes);
}

-- A tick on one entry leaves another one out of service.
pub tick_unhealthy-keeps_IsOut :
    (id : ℕ) (c : Candidate) (now : ℕ) (db : FleetDb) (result : EntryAutoDrainResult)
    → IsOut id db
    → IsOut id (tick_unhealthy c now db result).0
unfolding tick_unhealthy drain_entry block_routes_for_entry
tick_unhealthy-keeps_IsOut id c now db result out = record {
  draining = λ n found. elim (Option-cases (lookup id db.nodes)) [
    | inl missing ↦ ground (arith, lookup-modify id c.id (set_draining true) db.nodes)
    | inr (n', e) ↦
        ground (arith, lookup-modify id c.id (set_draining true) db.nodes, out.draining n')
  ];
  off = λ k r found via active. elim (Option-cases (lookup k db.routes)) [
    | inl missing ↦
        ground (arith, lookup-update_routes k (to_block c.id) (blocked_row now) db.routes)
    | inr (r', e) ↦
        ground
          (arith, lookup-update_routes k (to_block c.id) (blocked_row now) db.routes, out.off k r')
  ];
}

-- So does the restoration of another entry.
pub undrain-keeps_IsOut :
    (self : EntryAutoDrainService) (id : ℕ) (c : Candidate) (now : ℕ) (db after : FleetDb) (m : ℕ)
    → id ≢ c.id
    → unblock_routes_for_entry c.id now (try_undrain_entry self c db).0 ≡ ok (after, m)
    → IsOut id db
    → IsOut id after
unfolding unblock_routes_for_entry try_undrain_entry
undrain-keeps_IsOut self id c now db after m other e out = record {
  draining = λ n found. elim (Option-cases (lookup id db.nodes)) [
    | inl missing ↦ ground (arith, lookup-modify id c.id (set_draining false) db.nodes)
    | inr (n', e') ↦ ground (
      arith,
      lookup-modify id c.id (set_draining false) db.nodes,
      out.draining n',
      ==_iff id c.id,
    )
  ];
  off = λ k r found via active. elim (Option-cases (lookup k db.routes)) [
    | inl missing ↦
        ground (arith, lookup-update_routes k (to_unblock c.id) (unblocked_row now) db.routes)
    | inr (r', e') ↦ ground (
      arith,
      lookup-update_routes k (to_unblock c.id) (unblocked_row now) db.routes,
      out.off k r',
      one_entry r'.entry_node_id id c.id,
    )
  ];
}
