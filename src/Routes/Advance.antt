-- ===== src/Routes/Advance.antt =====
-- The tick of the warm-up reconciler over the whole table of routes, and the admin's health action.
use vpn_control_api.Base.{
  ℕ, ◌+◌, ◌≤◌, ◌≡◌, refl, true, false, ◌&&◌, Option, none, some, List, [], ◌∷◌, if◌then◌else◌, ok,
  err, arith, ◌==◌, ==_iff, ==_refl, Option-cases, inl, inr, Bool-cases, ◌⊎◌,
}
use vpn_control_api.Base.Table.{Table, lookup, modify, lookup-modify, Distinct}
use vpn_control_api.Routes.Schemas.{
  degraded, suspected, set_degraded, set_suspected, RouteHealthAction, RouteWarmupStage, Route,
  RouteStateResolution,
}
use vpn_control_api.Routes.StateMachine.{
  settled, stored, resolve_route_health_action, resolve_warmup_tick,
}
use vpn_control_api.Routes.Health.{resolve_route_health_action-IsConsistent}
use vpn_control_api.Routes.Service.{
  integrity_error, write_state, update_route_health, RouteWarmupTickOut, is_warming_up,
  list_warming_up, advance_rows, advance_warmup, count_tick,
}
use vpn_control_api.Routes.Warmup.{tick, resolve_warmup_tick-IsConsistent}

pub write_state_ok :
    (id now : ℕ) (s : RouteStateResolution) (db : Table Route) {r : Route}
    → lookup id db ≡ some r
    → s.effective_weight ≤ r.base_weight
    → write_state id s now db ≡ ok (modify id (λ x. stored x s now) db, stored r s now)
unfolding write_state
write_state_ok id now s db e le =
    ground (arith, lookup-modify id id (λ (x : Route). stored x s now) db)

-- What a listed row becomes, and what any other row keeps.
abbrev row_after : List RouteWarmupStage → ℕ → Option Route → Option Route → Option Route
row_after stages now none old = old
row_after stages now (some r) old = some (tick stages r now)

lookup-tail :
    (id k : ℕ) (route : Route) {r : Route} (rest : List (ℕ × Route))
    → lookup id rest ≡ none
    → lookup k rest ≡ some r
    → (lookup k ((id, route) ∷ rest) ≡ some r) × ((k == id) ≡ false)
unfolding lookup
lookup-tail id k route rest fresh e = elim (Bool-cases (k == id)) [
  | inl same ↦ absurd (ground (arith, ==_iff k id))
  | inr other ↦ ground arith
]

module _ (stages : List RouteWarmupStage) (now : ℕ) where
  advance_rows_lem :
      (rows : List (ℕ × Route)) (db : Table Route) (out : RouteWarmupTickOut)
      → Distinct rows
      → ((k : ℕ) (r : Route) → lookup k rows ≡ some r → lookup k db ≡ some r)
      → (after : Table Route) × (out' : RouteWarmupTickOut) × (advance_rows stages now rows db out
          ≡ ok (after, out'))
        × ((k : ℕ) → lookup k after ≡ row_after stages now (lookup k rows) (lookup k db))
  unfolding advance_rows lookup tick
  advance_rows_lem [] db out d listed = (db, out, refl, λ k. refl)
  advance_rows_lem ((id, route) ∷ rest) db out d listed =
      elim (Option-cases (resolve_warmup_tick route now stages)) [
        | inl e ↦
            let ih =
              advance_rows_lem rest db (record out { processed = out.processed + 1 }) d.1
                (λ k r h. listed k r (lookup-tail id k route rest d.0 h).0) in
            (
              ih.0,
              ih.1,
              rw (e, advance_rows) ih.2,
              λ k. ground (arith, ih.3 k, ==_iff k id, listed id route, ==_refl id),
            )
        | inr ((s, result), e) ↦
            let w =
              write_state_ok id now s db (listed id route (ground (arith, ==_refl id)))
                (resolve_warmup_tick-IsConsistent route now stages e).within_base in
            let ih =
              advance_rows_lem rest (modify id (λ x. stored x s now) db)
                (count_tick result (record out { processed = out.processed + 1 })) d.1
                (λ k r h. ground (
                  arith,
                  lookup-tail id k route rest d.0 h,
                  listed k r,
                  lookup-modify k id (λ (x : Route). stored x s now) db,
                )) in
            (
              ih.0,
              ih.1,
              rw (e, advance_rows) (rw (w, advance_rows) ih.2),
              λ k. ground (
                arith,
                ih.3 k,
                ==_iff k id,
                listed id route,
                ==_refl id,
                lookup-modify k id (λ (x : Route). stored x s now) db,
              ),
            )
      ]

-- `list_warming_up` keeps exactly the active routes that warm up.
abbrev keep_warming : Option Route → Option Route
keep_warming none = none
keep_warming (some r) = if r.is_active && is_warming_up r.health_status then some r else none

lookup-list_warming_up :
    (k : ℕ) (db : Table Route)
    → Distinct db
    → lookup k (list_warming_up db) ≡ keep_warming (lookup k db)
unfolding lookup list_warming_up
lookup-list_warming_up k [] d = refl
lookup-list_warming_up k ((id, r) ∷ db) d =
    ground (arith, lookup-list_warming_up k db d.1, ==_iff k id)

list_warming_up-Distinct : (db : Table Route) → Distinct db → Distinct (list_warming_up db)
unfolding list_warming_up
list_warming_up-Distinct [] d = tt
list_warming_up-Distinct ((id, r) ∷ db) d =
    ground (arith, list_warming_up-Distinct db d.1, lookup-list_warming_up id db d.1)

-- What one row becomes in a reconciler tick.
abbrev pub ticked : List RouteWarmupStage → ℕ → Option Route → Option Route
ticked stages now none = none
ticked stages now (some r) =
    some (if r.is_active && is_warming_up r.health_status then tick stages r now else r)

-- In a table whose identifiers are distinct, the reconciler's tick never fails, ticks each active route that warms up exactly once, and
-- leaves every other row as it was.
pub advance_warmup_lem :
    (stages : List RouteWarmupStage) (now : ℕ) (db : Table Route)
    → Distinct db
    → (after : Table Route) × (out : RouteWarmupTickOut) × (advance_warmup stages now db
        ≡ ok (after, out))
      × ((k : ℕ) → lookup k after ≡ ticked stages now (lookup k db))
unfolding advance_warmup
advance_warmup_lem stages now db d =
    let rows =
      advance_rows_lem stages now (list_warming_up db) db
        (record { processed = 0; advanced = 0; finalized = 0 }) (list_warming_up-Distinct db d)
        (λ k r h. ground (arith, lookup-list_warming_up k db d)) in
    (rows.0, rows.1, rows.2, λ k. ground (arith, rows.3 k, lookup-list_warming_up k db d))

-- On an active route with a base weight of at least 1, an action that the state machine resolves is stored, and the stored row is the one returned.
update_route_health_ok :
    (stages : List RouteWarmupStage) (id : ℕ) (action : RouteHealthAction) (cooldown_hours now : ℕ)
    (db : Table Route) {r : Route} {s : RouteStateResolution}
    → lookup id db ≡ some r
    → r.is_active ≡ true
    → 1 ≤ r.base_weight
    → resolve_route_health_action r action now cooldown_hours stages ≡ ok s
    → update_route_health stages id action cooldown_hours now db
      ≡ ok (modify id (λ x. stored x s now) db, stored r s now)
unfolding update_route_health
update_route_health_ok stages id action h now db {r} {s} e active pos resolved = ground (
  arith,
  write_state_ok id now s db e
      (resolve_route_health_action-IsConsistent r action now h stages pos resolved).within_base,
)

-- On an active route with base weight 0, degrading or suspecting fails on the database's check constraint: the weight of
-- at least 1 that the code computes exceeds the base weight.
pub update_route_health_zero_weight :
    (stages : List RouteWarmupStage) (id : ℕ) (action : RouteHealthAction) (cooldown_hours now : ℕ)
    (db : Table Route) {r : Route}
    → lookup id db ≡ some r
    → r.is_active ≡ true
    → r.base_weight ≡ 0
    → (action ≡ set_degraded) ⊎ (action ≡ set_suspected)
    → update_route_health stages id action cooldown_hours now db ≡ err integrity_error
unfolding update_route_health resolve_route_health_action
update_route_health_zero_weight stages id action h now db e active zero (inl a) =
    ground
      (arith, lookup-modify id id (λ (x : Route). stored x (settled degraded 1) now) db, ==_refl id)
update_route_health_zero_weight stages id action h now db e active zero (inr a) =
    ground (
      arith,
      lookup-modify id id (λ (x : Route). stored x (settled suspected 1) now) db,
      ==_refl id,
    )
