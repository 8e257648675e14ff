-- ===== src/Fleet/Tests.antt =====
-- Runs of the probe reports, and their theorems at concrete routes.
use vpn_control_api.Base.{
  ℕ, ◌≡◌, refl, true, false, none, some, List, [], ◌∷◌, arith, ok, filter, take,
}
use vpn_control_api.Base.Table.{lookup, modify}
use vpn_control_api.Routes.Schemas.{healthy, degraded, Route}
use vpn_control_api.Routes.StateMachine.{stored, resolve_probe_block}
use vpn_control_api.Fleet.Rows.{synthetic_vpn, ProbeSignal, ProbePolicy, FleetDb}
use vpn_control_api.Fleet.Signals.{count_failures, count_consecutive_route_failures, create_signal}
use vpn_control_api.Fleet.Probes.{report}
use vpn_control_api.Fleet.Streaks.{level_weight, IsFailure}
use vpn_control_api.Fleet.Escalation.{report_all, failing_reports_escalate}
use vpn_control_api.Fleet.Blocks.{IsProven, report-IsProven}
use vpn_control_api.Fleet.Weightless.{report_each, weightless_never_blocked}

abbrev policy : ProbePolicy
policy = record {
  auto_route_health_enabled = true;
  route_suspected_after_failures = 2;
  route_degraded_after_failures = 3;
  route_block_after_failures = 4;
  route_block_cooldown_hours = 6;
}

abbrev route : Route
route = record {
  node_id = 1;
  entry_node_id = none;
  health_status = healthy;
  base_weight = 50;
  effective_weight = 50;
  cooldown_until = none;
  warmup_stage = none;
  warmup_started_at = none;
  is_active = true;
  updated_at = 0;
}

abbrev weightless : Route
weightless = record route { base_weight = 0; effective_weight = 0 }

-- A failed synthetic probe of route 7, checked at `t`.
abbrev failure : ℕ → ProbeSignal
failure t = record {
  id = t;
  node_id = 1;
  route_id = some 7;
  probe_kind = synthetic_vpn;
  source = 0;
  is_reachable = false;
  checked_at = t;
  is_active = true;
}

abbrev success : ProbeSignal
success = record (failure 1) { is_reachable = true }

abbrev db_of : Route → List ProbeSignal → FleetDb
db_of r signals = record { nodes = []; agents = []; routes = (7, r) ∷ []; signals = signals }

abbrev rows : List (ProbeSignal × ℕ)
rows = (failure 2, 2) ∷ (failure 3, 3) ∷ (failure 4, 4) ∷ []

abbrev more_rows : List (ProbeSignal × ℕ)
more_rows = (failure 2, 2) ∷ (failure 3, 3) ∷ (failure 4, 4) ∷ (failure 5, 5) ∷ (failure 6, 6) ∷ []

failure-IsFailure : (t : ℕ) → IsFailure 7 (failure t)
failure-IsFailure t = record { about = refl; kind = refl; failed = refl; active = refl }

failing_reports_escalate_example :
    (after : FleetDb) × (report_all policy rows (db_of route (success ∷ [])) ≡ ok after)
    × (route' : Route) × (lookup 7 after.routes ≡ some route')
    × (route'.health_status ≡ degraded)
    × (route'.effective_weight ≡ level_weight policy 3 route'.base_weight 50)
unfolding lookup count_failures filter
failing_reports_escalate_example =
    failing_reports_escalate policy rows 7 route (db_of route (success ∷ [])) refl (omega arith)
      refl (refl, refl, omega arith) (refl, refl, refl) refl
      (
        failure-IsFailure 2,
        omega arith,
        (failure-IsFailure 3, omega arith, (failure-IsFailure 4, omega arith, tt)),
      )

abbrev three_failed : FleetDb
three_failed = db_of route (failure 4 ∷ failure 3 ∷ failure 2 ∷ success ∷ [])

abbrev four_failed : FleetDb
unfolding resolve_probe_block
four_failed =
    db_of (stored route (resolve_probe_block 5 6) 5)
      (failure 5 ∷ failure 4 ∷ failure 3 ∷ failure 2 ∷ success ∷ [])

report_run : report policy (failure 5) 5 three_failed ≡ ok four_failed
unfolding report lookup modify filter take count_consecutive_route_failures four_failed
report_run = refl

report-IsProven_example :
    IsProven policy 7 5
      (record three_failed { signals = create_signal (failure 5) three_failed.signals })
unfolding lookup four_failed
report-IsProven_example =
    report-IsProven policy (failure 5) 7 5 three_failed four_failed report_run
      (route, stored route (resolve_probe_block 5 6) 5, refl, refl, refl, refl)

weightless_never_blocked_example :
    (report_each policy more_rows (db_of weightless [])).routes ≡ (7, weightless) ∷ []
unfolding lookup count_failures filter
weightless_never_blocked_example =
    weightless_never_blocked policy 7 weightless 0 more_rows (db_of weightless [])
      (record {
        direct = refl;
        active = refl;
        weightless = refl;
        unblocked = refl;
        undegraded = refl;
        unsuspected = refl;
      })
      refl (omega arith, omega arith) refl tt (omega arith)
      (
        failure-IsFailure 2,
        omega arith,
        (
          failure-IsFailure 3,
          omega arith,
          (
            failure-IsFailure 4,
            omega arith,
            (failure-IsFailure 5, omega arith, (failure-IsFailure 6, omega arith, tt)),
          ),
        ),
      )
