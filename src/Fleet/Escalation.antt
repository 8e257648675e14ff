-- ===== src/Fleet/Escalation.antt =====
-- How far failing probe reports take a route, and what it takes to block one.
use vpn_control_api.Base.{
  ℕ, suc, ◌+◌, ◌≤◌, ◌≡◌, refl, true, false, none, some, List, [], ◌∷◌, Result, ok, err, arith,
  length, ap, ◌∙◌, sym,
}
use mathlib.Core.Path.{subst}
use vpn_control_api.Base.Table.{lookup}
use vpn_control_api.Routes.Schemas.{RouteHealthStatus, Route}
use vpn_control_api.Routes.StateMachine.{is_blocked}
use vpn_control_api.Routes.Service.{RouteServiceError}
use vpn_control_api.Fleet.Rows.{ProbeSignal, ProbePolicy, FleetDb}
use vpn_control_api.Fleet.Probes.{is_degraded, is_suspected, report}
use vpn_control_api.Fleet.Streaks.{
  level, level_weight, streak, IsFailure, IsNewest, IsAt, Holds, report_failure, streak-cons,
}

-- Reports one after the other, each at its time.
unfoldable pub report_all :
    ProbePolicy → List (ProbeSignal × ℕ) → FleetDb → Result RouteServiceError FleetDb
unfolding report
report_all policy [] db = ok db
report_all policy ((row, now) ∷ rest) db = elim (report policy row now db) [
  | err e ↦ err e
  | ok after ↦ report_all policy rest after
]

-- Failures about one route, none checked before the signals that it follows.
abbrev pub Failures : ℕ → List ProbeSignal → List (ProbeSignal × ℕ) → Type 0
Failures id signals [] = Unit
Failures id signals ((row, now) ∷ rest) =
    IsFailure id row × IsNewest row signals × Failures id (row ∷ signals) rest

report_all-Holds :
    (policy : ProbePolicy) (status : RouteHealthStatus) (weight id n : ℕ)
    (rows : List (ProbeSignal × ℕ)) (db : FleetDb)
    → (is_blocked status ≡ false) × (is_degraded status ≡ false) × (is_suspected status ≡ false)
    → policy.auto_route_health_enabled ≡ true
    → Failures id db.signals rows
    → Holds policy status weight id n db
    → streak id db.signals ≡ n
    → (after : FleetDb) × (report_all policy rows db ≡ ok after)
      × Holds policy status weight id (n + length rows) after
unfolding report_all
report_all-Holds policy status weight id n [] db calm on fs holds many =
    (db, refl, subst (λ k. Holds policy status weight id k db) (omega arith) holds)
report_all-Holds policy status weight id n ((row, now) ∷ rest) db calm on (f, new, fs) holds many =
    let (next, done, held, signals) =
      report_failure policy status weight calm id n now row db on f new holds many in
    let more = subst (λ ss. Failures id ss rest) (sym signals) fs in
    let longer : streak id next.signals ≡ suc n =
      ap (streak id) signals ∙ streak-cons id row db.signals f ∙ ap suc many in
    let (after, run, end) =
      report_all-Holds policy status weight id (suc n) rest next calm on more held longer in
    (after, ground arith, subst (λ k. Holds policy status weight id k after) (omega arith) end)

-- Let a route be active, direct (without an entry node), of a base weight of at least 1 and neither suspected,
-- degraded nor blocked, let the newest synthetic signal about it be no failure, and let every threshold of the policy
-- be at least 1 and the policy be on. Then reports of failed synthetic probes about it, each newer than the signals
-- before it, all succeed, and leave it in exactly the health and with exactly the weight that their number calls for:
-- blocked with weight 0 from the block threshold on, degraded with half or suspected with a third of its base weight
-- (at least 1) from those thresholds on, and as it was below all three.
pub failing_reports_escalate :
    (policy : ProbePolicy) (rows : List (ProbeSignal × ℕ)) (id : ℕ) (route : Route) (db : FleetDb)
    → policy.auto_route_health_enabled ≡ true
    → (1 ≤ policy.route_suspected_after_failures)
      × (1 ≤ policy.route_degraded_after_failures)
      × (1 ≤ policy.route_block_after_failures)
    → lookup id db.routes ≡ some route
    → (route.entry_node_id ≡ none) × (route.is_active ≡ true) × (1 ≤ route.base_weight)
    → (is_blocked route.health_status ≡ false)
      × (is_degraded route.health_status ≡ false)
      × (is_suspected route.health_status ≡ false)
    → streak id db.signals ≡ 0
    → Failures id db.signals rows
    → (after : FleetDb) × (report_all policy rows db ≡ ok after)
      × (route' : Route) × (lookup id after.routes ≡ some route')
      × (route'.health_status ≡ level policy (length rows) route.health_status)
      × (route'.effective_weight
          ≡ level_weight policy (length rows) route'.base_weight route.effective_weight)
failing_reports_escalate policy rows id route db on thresholds found (direct, active, weighty) calm
      none_failed fs =
    let start : IsAt policy 0 route.health_status route.effective_weight route = record {
      direct = direct;
      active = active;
      weighty = weighty;
      health = ground arith;
      effective = ground arith;
    } in
    let (after, run, held) =
      report_all-Holds policy route.health_status route.effective_weight id 0 rows db calm on fs
        (route, found, start) none_failed in
    let at =
      subst (λ k. IsAt policy k route.health_status route.effective_weight held.0) (omega arith)
        held.2 in
    (after, run, held.0, held.1, at.health, at.effective)
