-- ===== src/Fleet/Weightless.antt =====
-- Routes of base weight 0 under failing probes: services/probe/ingestion_service.py and the check
-- constraint on the weights in services/routes/models.py.
use vpn_control_api.Base.{
  ℕ, suc, ◌+◌, ◌≤◌, ◌<◌, ◌≡◌, inl, inr, refl, true, false, none, some, List, [], ◌∷◌, ok, err,
  arith, filter, Option-cases,
}
use vpn_control_api.Base.Table.{lookup, lookup-modify}
use vpn_control_api.Routes.Schemas.{Route, RouteStateResolution}
use vpn_control_api.Routes.StateMachine.{is_blocked, stored}
use vpn_control_api.Routes.Service.{integrity_error, write_state}
use vpn_control_api.Fleet.Rows.{ProbeSignal, ProbePolicy, FleetDb}
use vpn_control_api.Fleet.Signals.{synthetic_of_route, count_consecutive_route_failures}
use vpn_control_api.Fleet.Probes.{
  is_degraded, is_suspected, next_state, move_route, degrade_route_after_probe, apply_to_route,
  apply_route_health_policy, report,
}
use vpn_control_api.Fleet.Streaks.{
  streak, IsFailure, IsNewest, count_failures-take, create_newest, finds_row, streak-cons,
  direct_lem,
}
use native.Mathlib.Decide.{dec_lt}

-- A direct route without weight, in no state that a probe has put it in.
pub record IsWeightless (route : Route) : Type 0 where
  pub direct : route.entry_node_id ≡ none
  pub active : route.is_active ≡ true
  pub weightless : route.base_weight ≡ 0
  pub unblocked : is_blocked route.health_status ≡ false
  pub undegraded : is_degraded route.health_status ≡ false
  pub unsuspected : is_suspected route.health_status ≡ false

next_fails :
    (policy : ProbePolicy) (route : Route) (t n : ℕ)
    → IsWeightless route
    → n < policy.route_block_after_failures
    → policy.route_suspected_after_failures ≤ n
    → (s : RouteStateResolution) × (next_state policy route t n ≡ some s) × (1 ≤ s.effective_weight)
unfolding next_state
next_fails policy route t n w below above = elim (Option-cases (next_state policy route t n)) [
  | inl e ↦ absurd (ground arith)
  | inr (s, e) ↦ (s, e, ground arith)
]

next_waits :
    (policy : ProbePolicy) (route : Route) (t n : ℕ)
    → n < policy.route_suspected_after_failures
    → policy.route_suspected_after_failures ≤ policy.route_degraded_after_failures
    → policy.route_suspected_after_failures ≤ policy.route_block_after_failures
    → next_state policy route t n ≡ none
unfolding next_state
next_waits policy route t n below a b = ground arith

move_fails :
    (id now : ℕ) (s : RouteStateResolution) (db : FleetDb) (route : Route)
    → lookup id db.routes ≡ some route
    → route.base_weight ≡ 0
    → 1 ≤ s.effective_weight
    → move_route id s now db ≡ err integrity_error
unfolding move_route write_state
move_fails id now s db route found zero_base positive =
    ground (arith, lookup-modify id id (λ (x : Route). stored x s now) db.routes)

module _ (policy : ProbePolicy) (id : ℕ) (route : Route) (w : IsWeightless route)
    (on : policy.auto_route_health_enabled ≡ true)
    (ordered : (policy.route_suspected_after_failures ≤ policy.route_degraded_after_failures)
      × (policy.route_suspected_after_failures < policy.route_block_after_failures)) where
  counted :
      (db : FleetDb) (n : ℕ)
      → streak id db.signals ≡ n
      → n ≤ policy.route_block_after_failures
      → count_consecutive_route_failures id (policy.route_block_after_failures + 2) db.signals ≡ n
  unfolding count_consecutive_route_failures
  counted db n e le = omega (
    arith,
    count_failures-take (policy.route_block_after_failures + 2)
        (filter (synthetic_of_route id) db.signals),
  )

  -- The failure that reaches the first threshold is refused by the database.
  report_refused :
      (now : ℕ) (row : ProbeSignal) (db : FleetDb)
      → lookup id db.routes ≡ some route
      → IsFailure id row
      → IsNewest row db.signals
      → suc (streak id db.signals) ≡ policy.route_suspected_after_failures
      → report policy row now db ≡ err integrity_error
  unfolding report apply_route_health_policy apply_to_route degrade_route_after_probe
  report_refused now row db found f new reached =
      let db' = record db { signals = row ∷ db.signals } in
      let n = policy.route_suspected_after_failures in
      let (s, next, positive) =
        next_fails policy route row.checked_at n w (omega arith) (omega arith) in
      ground (
        arith,
        create_newest row db.signals new,
        finds_row id row db.signals f,
        direct_lem route now db' w.direct,
        counted db' n (omega (arith, streak-cons id row db.signals f)) (omega arith),
        next,
        move_fails id now s db' route found w.weightless positive,
      )

  -- A failure below it is recorded, and leaves the routes alone.
  report_waits :
      (now : ℕ) (row : ProbeSignal) (db : FleetDb)
      → lookup id db.routes ≡ some route
      → IsFailure id row
      → IsNewest row db.signals
      → suc (streak id db.signals) < policy.route_suspected_after_failures
      → report policy row now db ≡ ok (record db { signals = row ∷ db.signals })
  unfolding report apply_route_health_policy apply_to_route degrade_route_after_probe
  report_waits now row db found f new below =
      let db' = record db { signals = row ∷ db.signals } in
      let n = suc (streak id db.signals) in
      ground (
        arith,
        create_newest row db.signals new,
        finds_row id row db.signals f,
        direct_lem route now db' w.direct,
        counted db' n (omega (arith, streak-cons id row db.signals f)) (omega arith),
        next_waits policy route row.checked_at n,
      )

-- Reports in sessions of their own: one that raises is rolled back.
unfoldable pub report_each : ProbePolicy → List (ProbeSignal × ℕ) → FleetDb → FleetDb
unfolding report
report_each policy [] db = db
report_each policy ((row, now) ∷ rest) db = elim (report policy row now db) [
  | err e ↦ report_each policy rest db
  | ok after ↦ report_each policy rest after
]

-- Failures about one route, in the order of their times, from the given one on.
abbrev pub FailuresFrom : ℕ → ℕ → List (ProbeSignal × ℕ) → Type 0
FailuresFrom id t [] = Unit
FailuresFrom id t ((row, now) ∷ rest) =
    IsFailure id row × (t ≤ row.checked_at) × FailuresFrom id row.checked_at rest

-- No signal was checked after an instant.
abbrev pub AllUntil : ℕ → List ProbeSignal → Type 0
AllUntil t [] = Unit
AllUntil t (s ∷ ss) = s.checked_at ≤ t

newest_lem :
    (t : ℕ) (row : ProbeSignal) (signals : List ProbeSignal)
    → AllUntil t signals
    → t ≤ row.checked_at
    → IsNewest row signals
newest_lem t row [] a le = tt
newest_lem t row (s ∷ ss) a le = omega arith

later_lem : (t u : ℕ) (signals : List ProbeSignal) → AllUntil t signals → t ≤ u → AllUntil u signals
later_lem t u [] a le = tt
later_lem t u (s ∷ ss) a le = omega arith

-- Let a route of base weight 0 be active, direct and neither suspected, degraded nor blocked, and let the policy be
-- on, with a threshold for suspicion that is not above the one for degradation and below the one for blocking. If the
-- newest signals about it are fewer failures than make it suspected, then no number of failed synthetic probes about
-- it, each newer than the signals before it and reported in a session of its own, ever changes the routes: the
-- route is never blocked.
pub weightless_never_blocked :
    (policy : ProbePolicy) (id : ℕ) (route : Route) (t : ℕ) (rows : List (ProbeSignal × ℕ))
    (db : FleetDb)
    → IsWeightless route
    → policy.auto_route_health_enabled ≡ true
    → (policy.route_suspected_after_failures ≤ policy.route_degraded_after_failures)
      × (policy.route_suspected_after_failures < policy.route_block_after_failures)
    → lookup id db.routes ≡ some route
    → AllUntil t db.signals
    → streak id db.signals < policy.route_suspected_after_failures
    → FailuresFrom id t rows
    → (report_each policy rows db).routes ≡ db.routes
unfolding report_each
weightless_never_blocked policy id route t [] db w on o found until few fs = refl
weightless_never_blocked policy id route t ((row, now) ∷ rest) db w on o found until few
      (f, le, fs) =
    let new = newest_lem t row db.signals until le in
    elim (dec_lt (suc (streak id db.signals)) policy.route_suspected_after_failures) [
      | yes below ↦
          let waits = report_waits policy id route w on o now row db found f new below in
          let db' = record db { signals = row ∷ db.signals } in
          let longer = streak-cons id row db.signals f in
          rw (waits, report_each)
            (weightless_never_blocked policy id route row.checked_at rest db' w on o found
              (omega arith) (omega (arith, longer)) fs)
      | no reached ↦
          let refused =
            report_refused policy id route w on o now row db found f new (omega arith) in
          rw (refused, report_each)
            (weightless_never_blocked policy id route row.checked_at rest db w on o found
              (later_lem t row.checked_at db.signals until le) few fs)
    ]
