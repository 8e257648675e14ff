-- ===== src/Fleet/Restore.antt =====
-- How services/entry/drain_service.py restores an entry.
use vpn_control_api.Base.{
  ℕ, ◌+◌, ◌≤◌, ◌≡◌, refl, true, false, Option, none, some, [], ◌∷◌, max, ==_refl, ok, err, arith,
}
use vpn_control_api.Base.Table.{Table, lookup, modify, lookup-modify, modify_back}
use vpn_control_api.Routes.Schemas.{warming_up, Route}
use vpn_control_api.Routes.Service.{integrity_error}
use vpn_control_api.Fleet.Rows.{DrainReason, entry_auto_drain, NodeAgentState, FleetDb}
use vpn_control_api.Fleet.EntryDrain.{
  EntryAutoDrainService, EntryAutoDrainResult, Candidate, unhealthy_reason, with_drain, drain_entry,
  try_undrain_entry, update_routes, unblock_routes_for_entry, to_unblock, unblocked_row,
  may_undrain, violates, mark_drain_meta,
}
use vpn_control_api.Fleet.EntryTick.{tick_healthy, tick_entry}
use vpn_control_api.Fleet.EntryLaws.{IsCurrent, set_draining, lookup-update_routes}

-- A healthy entry that the tick may restore.
pub record IsRestorable (self : EntryAutoDrainService) (c : Candidate) (db : FleetDb) : Type 0 where
  pub current : IsCurrent c db
  pub well : unhealthy_reason self c db ≡ none
  pub enabled : self.auto_undrain_enabled ≡ true
  pub draining : c.entry.is_draining ≡ true
  pub allowed : may_undrain self c.agent_state ≡ true

-- The tables and the counts after a restoration.
restored_db : Candidate → ℕ → FleetDb → FleetDb
restored_db c now db = record db {
  nodes = modify c.id (set_draining false) db.nodes;
  agents = mark_drain_meta c.id c.agent_state none none db.agents;
  routes = (update_routes (to_unblock c.id) (unblocked_row now) db.routes).0;
}

counted_restore : Candidate → ℕ → FleetDb → EntryAutoDrainResult → EntryAutoDrainResult
counted_restore c now db before = record before {
  processed = before.processed + 1;
  undrained = before.undrained + 1;
  routes_unblocked =
      before.routes_unblocked + (update_routes (to_unblock c.id) (unblocked_row now) db.routes).1;
}

restore_lem :
    (self : EntryAutoDrainService) (c : Candidate) (now : ℕ) (db : FleetDb)
    (before : EntryAutoDrainResult)
    → IsRestorable self c db
    → violates c.id now db.routes ≡ false
    → tick_entry self c now db before ≡ ok (restored_db c now db, counted_restore c now db before)
unfolding tick_entry tick_healthy try_undrain_entry unblock_routes_for_entry restored_db
    counted_restore
restore_lem self c now db before h sound = ground (arith, h.well, h.enabled, h.draining, h.allowed)

-- Where the tick may restore a healthy entry and no blocked route through it breaks the constraint on weights, it
-- ends the drain and leaves its source, an administrator included, in place; and it starts the warm-up of every
-- active blocked route through the entry, with a weight of at least 1 and with the cooldown that the route still has.
pub tick_entry_restores :
    (self : EntryAutoDrainService) (c : Candidate) (now : ℕ) (db : FleetDb)
    (before : EntryAutoDrainResult)
    → IsRestorable self c db
    → violates c.id now db.routes ≡ false
    → (after : FleetDb) × (result : EntryAutoDrainResult) × (tick_entry self c now db before
        ≡ ok (after, result))
      × (lookup c.id after.nodes ≡ some (record c.entry { is_draining = false }))
      × ((k : ℕ) (r : Route)
          → lookup k db.routes ≡ some r
          → to_unblock c.id r ≡ true
          → (r' : Route) × (lookup k after.routes ≡ some r')
            × (r'.health_status ≡ warming_up)
            × (1 ≤ r'.effective_weight)
            × (r'.cooldown_until ≡ r.cooldown_until))
unfolding restored_db
tick_entry_restores self c now db before h sound = (
  restored_db c now db,
  counted_restore c now db before,
  restore_lem self c now db before h sound,
  ground (arith, lookup-modify c.id c.id (set_draining false) db.nodes, ==_refl c.id, h.current),
  λ k r found selected. (
    unblocked_row now r,
    ground (arith, lookup-update_routes k (to_unblock c.id) (unblocked_row now) db.routes),
    refl,
    omega arith,
    refl,
  ),
)

violates_lem :
    (id now k : ℕ) (r : Route) (t : Table Route)
    → lookup k t ≡ some r
    → to_unblock id r ≡ true
    → r.base_weight ≡ 0
    → violates id now t ≡ true
unfolding lookup violates
violates_lem id now k r [] found selected weightless = absurd (ground arith)
violates_lem id now k r ((j, x) ∷ t) found selected weightless =
    ground (arith, violates_lem id now k r t)

-- Where the tick may restore an entry and an active blocked route of base weight 0 goes through it, the tick is
-- refused by the database.
pub tick_entry_refused :
    (self : EntryAutoDrainService) (c : Candidate) (now k : ℕ) (r : Route) (db : FleetDb)
    (before : EntryAutoDrainResult)
    → IsRestorable self c db
    → lookup k db.routes ≡ some r
    → to_unblock c.id r ≡ true
    → r.base_weight ≡ 0
    → tick_entry self c now db before ≡ err integrity_error
unfolding tick_entry tick_healthy try_undrain_entry unblock_routes_for_entry
tick_entry_refused self c now k r db before h found selected weightless = ground (
  arith,
  h.well,
  h.enabled,
  h.draining,
  h.allowed,
  violates_lem c.id now k r db.routes found selected weightless,
)

-- The agent's row under the marks of `_drain_entry` and `_try_undrain_entry`.
abbrev marked : Option DrainReason → Option ℕ → NodeAgentState → NodeAgentState → NodeAgentState
marked reason at state row = record row { heartbeat = (with_drain reason at state).heartbeat }

module _ (self : EntryAutoDrainService) (c : Candidate) (now : ℕ) (db : FleetDb)
    (state : NodeAgentState) where
  drained_db : FleetDb
  drained_db = record db {
    nodes = modify c.id (set_draining true) db.nodes;
    agents = modify c.id (marked (some entry_auto_drain) (some now) state) db.agents;
  }

  drained_state : NodeAgentState
  drained_state = with_drain (some entry_auto_drain) (some now) state

  -- What the query reads of the entry after the drain.
  drained_candidate : Candidate
  drained_candidate = record {
    id = c.id;
    entry = set_draining true c.entry;
    agent_state = some drained_state;
  }

  undrained_db : FleetDb
  undrained_db = record drained_db {
    nodes = modify c.id (set_draining false) drained_db.nodes;
    agents = modify c.id (marked none none drained_state) drained_db.agents;
  }

  drain_lem :
      c.agent_state ≡ some state
      → c.entry.is_draining ≡ false
      → drain_entry c now db ≡ (drained_db, true)
  unfolding drain_entry drained_db mark_drain_meta
  drain_lem has calm = ground arith

  undrain_lem :
      max 1 self.healthy_ticks_for_recovery ≤ state.heartbeat.consecutive_healthy
      → try_undrain_entry self drained_candidate drained_db ≡ (undrained_db, true)
  unfolding try_undrain_entry mark_drain_meta drained_candidate drained_state undrained_db
  undrain_lem enough = ground arith

-- Let an entry that is not draining have no reason and instant of a drain on record, and enough healthy heartbeats.
-- A drain of it, followed by the restoration of the entry that the query then reads, succeeds and gives every node
-- and every agent back as it was.
pub drain_entry-undrain :
    (self : EntryAutoDrainService) (c : Candidate) (now : ℕ) (db : FleetDb) (state : NodeAgentState)
    → (c.agent_state ≡ some state) × (lookup c.id db.agents ≡ some state) × IsCurrent c db
    → c.entry.is_draining ≡ false
    → (state.heartbeat.drain_reason ≡ none) × (state.heartbeat.drained_at ≡ none)
    → max 1 self.healthy_ticks_for_recovery ≤ state.heartbeat.consecutive_healthy
    → (c' : Candidate) × (d : FleetDb) × (after : FleetDb) × (drain_entry c now db ≡ (d, true))
      × (c'.id ≡ c.id)
      × IsCurrent c' d
      × (c'.agent_state ≡ lookup c.id d.agents)
      × (try_undrain_entry self c' d ≡ (after, true))
      × ((k : ℕ)
          → (lookup k after.nodes ≡ lookup k db.nodes)
            × (lookup k after.agents ≡ lookup k db.agents))
unfolding drained_db drained_candidate drained_state undrained_db
drain_entry-undrain self c now db state (has, row, current) calm blank enough = (
  drained_candidate self c now db state,
  drained_db self c now db state,
  undrained_db self c now db state,
  drain_lem self c now db state has calm,
  refl,
  ground (arith, lookup-modify c.id c.id (set_draining true) db.nodes, ==_refl c.id),
  ground (
    arith,
    lookup-modify c.id c.id (marked (some entry_auto_drain) (some now) state) db.agents,
    ==_refl c.id,
  ),
  undrain_lem self c now db state enough,
  λ k. (
    modify_back k c.id (set_draining true) (set_draining false) db.nodes current (ground arith),
    modify_back k c.id (marked (some entry_auto_drain) (some now) state)
        (marked none none (drained_state self c now db state)) db.agents row (ground arith),
  ),
)
