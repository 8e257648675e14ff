-- ===== src/Fleet/Streaks.antt =====
-- What reports of failing probes in a row do to a route: services/probe/ingestion_service.py.
use vpn_control_api.Base.{
  ℕ, zero, suc, ◌+◌, ◌/◌, ◌≤◌, ◌≡◌, refl, inl, inr, true, false, none, some, List, [], ◌∷◌, min,
  max, leb, ==_refl, if◌then◌else◌, ok, arith, filter, take, Option-cases, Bool-cases,
}
use vpn_control_api.Base.Table.{lookup, modify, lookup-modify}
use vpn_control_api.Routes.Schemas.{
  RouteHealthStatus, degraded, suspected, blocked, Route, RouteStateResolution,
}
use vpn_control_api.Routes.StateMachine.{is_blocked, stored, resolve_probe_block}
use vpn_control_api.Routes.Advance.{write_state_ok}
use vpn_control_api.Fleet.Rows.{synthetic_vpn, ProbeSignal, ProbePolicy, FleetDb}
use vpn_control_api.Fleet.Signals.{
  create_signal, synthetic_of_route, count_failures, count_consecutive_route_failures,
}
use vpn_control_api.Fleet.Probes.{
  is_degraded, is_suspected, mesh_path_healthy_for_route, next_state, move_route,
  degrade_route_after_probe, apply_to_route, apply_route_health_policy, get_previous_signal, is_row,
  report,
}

-- The health that a number of failures in a row calls for, where a route starts from the given one.
abbrev pub level : ProbePolicy → ℕ → RouteHealthStatus → RouteHealthStatus
level policy n status =
    if leb policy.route_block_after_failures n
    then blocked
    else if leb policy.route_degraded_after_failures n
    then degraded
    else if leb policy.route_suspected_after_failures n
    then suspected
    else status

abbrev pub level_weight : ProbePolicy → ℕ → ℕ → ℕ → ℕ
level_weight policy n base_weight weight =
    if leb policy.route_block_after_failures n
    then 0
    else if leb policy.route_degraded_after_failures n
    then max 1 (base_weight / 2)
    else if leb policy.route_suspected_after_failures n
    then max 1 (base_weight / 3)
    else weight

-- How many of the newest synthetic signals about a route are failures, up to the first success.
abbrev pub streak : ℕ → List ProbeSignal → ℕ
streak id signals = count_failures (filter (synthetic_of_route id) signals)

pub count_failures-take :
    (n : ℕ) (xs : List ProbeSignal) → count_failures (take n xs) ≡ min n (count_failures xs)
unfolding count_failures take
count_failures-take zero xs = omega arith
count_failures-take (suc n) [] = omega arith
count_failures-take (suc n) (x ∷ xs) = ground (arith, count_failures-take n xs)

-- An active signal of a synthetic probe about the route, which failed.
pub record IsFailure (id : ℕ) (row : ProbeSignal) : Type 0 where
  pub about : row.route_id ≡ some id
  pub kind : row.probe_kind ≡ synthetic_vpn
  pub failed : row.is_reachable ≡ false
  pub active : row.is_active ≡ true

-- No signal was checked later.
abbrev pub IsNewest : ProbeSignal → List ProbeSignal → Type 0
IsNewest row [] = Unit
IsNewest row (s ∷ ss) = s.checked_at ≤ row.checked_at

pub create_newest :
    (row : ProbeSignal) (signals : List ProbeSignal)
    → IsNewest row signals
    → create_signal row signals ≡ row ∷ signals
unfolding create_signal
create_newest row [] h = refl
create_newest row (s ∷ ss) h = ground arith

pub streak-cons :
    (id : ℕ) (row : ProbeSignal) (signals : List ProbeSignal)
    → IsFailure id row
    → streak id (row ∷ signals) ≡ suc (streak id signals)
unfolding count_failures filter
streak-cons id row signals f = ground (arith, ==_refl id)

-- The new row is the one that the report finds as the latest.
pub finds_row :
    (id : ℕ) (row : ProbeSignal) (signals : List ProbeSignal)
    → IsFailure id row
    → is_row row (get_previous_signal row (row ∷ signals)) ≡ true
unfolding get_previous_signal filter
finds_row id row signals f = ground (arith, ==_refl id, ==_refl row.source, ==_refl row.id)

-- A direct route, with a base weight, in the health that `n` failures call for.
pub record IsAt (policy : ProbePolicy) (n : ℕ) (status : RouteHealthStatus) (weight : ℕ)
    (route : Route) : Type 0 where
  pub direct : route.entry_node_id ≡ none
  pub active : route.is_active ≡ true
  pub weighty : 1 ≤ route.base_weight
  pub health : route.health_status ≡ level policy n status
  pub effective : route.effective_weight ≡ level_weight policy n route.base_weight weight

pub direct_lem :
    (route : Route) (now : ℕ) (db : FleetDb)
    → route.entry_node_id ≡ none
    → mesh_path_healthy_for_route route now db ≡ false
unfolding mesh_path_healthy_for_route
direct_lem route now db e = ground arith

-- The route of the identifier in a database, and how it stands.
abbrev pub Holds : ProbePolicy → RouteHealthStatus → ℕ → ℕ → ℕ → FleetDb → Type 0
Holds policy status weight id n db =
    (route : Route) × (lookup id db.routes ≡ some route) × IsAt policy n status weight route

module _ (policy : ProbePolicy) (status : RouteHealthStatus) (weight : ℕ)
    (calm : (is_blocked status ≡ false)
      × (is_degraded status ≡ false)
      × (is_suspected status ≡ false)) where
  -- The state that is resolved after one failure more, where the thresholds ask for another one.
  next_some :
      (n m t : ℕ) (route : Route) {s : RouteStateResolution}
      → m ≡ min (policy.route_block_after_failures + 2) (suc n)
      → IsAt policy n status weight route
      → next_state policy route t m ≡ some s
      → (s.health_status ≡ level policy (suc n) status)
        × (s.effective_weight ≡ level_weight policy (suc n) route.base_weight weight)
        × (s.effective_weight ≤ route.base_weight)
  unfolding next_state resolve_probe_block
  next_some n m t route c at e = ground arith

  next_none :
      (n m t : ℕ) (route : Route)
      → m ≡ min (policy.route_block_after_failures + 2) (suc n)
      → is_blocked route.health_status ≡ false
      → IsAt policy n status weight route
      → next_state policy route t m ≡ none
      → IsAt policy (suc n) status weight route
  unfolding next_state
  next_none n m t route c unblocked at e = ground arith

  stays_blocked :
      (n : ℕ) (route : Route)
      → is_blocked route.health_status ≡ true
      → IsAt policy n status weight route
      → IsAt policy (suc n) status weight route
  stays_blocked n route b at = ground arith

  -- What a move of the route leaves.
  moves :
      (id n now : ℕ) (route : Route) (s : RouteStateResolution) (db : FleetDb)
      → lookup id db.routes ≡ some route
      → IsAt policy n status weight route
      → (s.health_status ≡ level policy (suc n) status)
        × (s.effective_weight ≡ level_weight policy (suc n) route.base_weight weight)
        × (s.effective_weight ≤ route.base_weight)
      → (after : FleetDb) × (move_route id s now db ≡ ok after)
        × Holds policy status weight id (suc n) after
        × (after.signals ≡ db.signals)
  unfolding move_route
  moves id n now route s db e at next =
      let written = write_state_ok id now s db.routes e next.2 in
      let found = lookup-modify id id (λ (x : Route). stored x s now) db.routes in
      (
        record db { routes = modify id (λ (x : Route). stored x s now) db.routes },
        ground arith,
        (
          stored route s now,
          ground (arith, ==_refl id),
          record {
            direct = at.direct;
            active = at.active;
            weighty = at.weighty;
            health = next.0;
            effective = next.1;
          },
        ),
        refl,
      )

  degrade_lem :
      (id n t now : ℕ) (route : Route) (db : FleetDb)
      → lookup id db.routes ≡ some route
      → IsAt policy n status weight route
      → streak id db.signals ≡ suc n
      → (after : FleetDb) × (degrade_route_after_probe policy id route t now db ≡ ok after)
        × Holds policy status weight id (suc n) after
        × (after.signals ≡ db.signals)
  unfolding degrade_route_after_probe count_consecutive_route_failures
  degrade_lem id n t now route db e at many =
      let limit = policy.route_block_after_failures + 2 in
      let counted = count_failures-take limit (filter (synthetic_of_route id) db.signals) in
      let m = count_consecutive_route_failures id limit db.signals in
      elim (Bool-cases (is_blocked route.health_status)) [
        | inl b ↦ (db, ground arith, (route, e, stays_blocked n route b at), refl)
        | inr b ↦ elim (Option-cases (next_state policy route t m)) [
          | inl stay ↦ (
            db,
            ground (arith, direct_lem route now db at.direct),
            (route, e, next_none n m t route (omega (arith, counted)) b at stay),
            refl,
          )
          | inr (s, go) ↦
              let (after, moved, held, kept) =
                moves id n now route s db e at
                  (next_some n m t route (omega (arith, counted)) at go) in
              (after, ground (arith, direct_lem route now db at.direct), held, kept)
        ]
      ]

  -- One report of a failure, newer than the other signals.
  pub report_failure :
      (id n now : ℕ) (row : ProbeSignal) (db : FleetDb)
      → policy.auto_route_health_enabled ≡ true
      → IsFailure id row
      → IsNewest row db.signals
      → Holds policy status weight id n db
      → streak id db.signals ≡ n
      → (after : FleetDb) × (report policy row now db ≡ ok after)
        × Holds policy status weight id (suc n) after
        × (after.signals ≡ row ∷ db.signals)
  unfolding report apply_route_health_policy apply_to_route
  report_failure id n now row db on f new (route, e, at) many =
      let db' = record db { signals = row ∷ db.signals } in
      let created = create_newest row db.signals new in
      let longer = streak-cons id row db.signals f in
      let (after, done, held, kept) =
        degrade_lem id n row.checked_at now route db' e at (omega (arith, longer, many)) in
      (after, ground (arith, created, finds_row id row db.signals f), held, kept)
