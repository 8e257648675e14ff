-- ===== src/Routes/Tests.antt =====
-- Runs of the route state machine, and the theorems at concrete routes.
use vpn_control_api.Base.{ℕ, ◌≡◌, refl, true, none, some, [], ◌∷◌, arith, ok, err, inl}
use vpn_control_api.Base.Table.{Table, lookup}
use vpn_control_api.Routes.Schemas.{
  healthy, degraded, blocked, warming_up, recover, set_degraded, advanced, Route, aware, naive,
  default_warmup_stages, hours, minutes,
}
use vpn_control_api.Routes.StateMachine.{
  route_cooldown_active, stage_weight, settled, warming, resolve_route_health_action,
  resolve_warmup_tick, resolve_probe_recover,
}
use vpn_control_api.Routes.Health.{IsConsistent, resolve_route_health_action-IsConsistent}
use vpn_control_api.Routes.Service.{
  RouteWarmupTickOut, integrity_error, update_route_health, advance_warmup,
}
use vpn_control_api.Routes.Warmup.{run, run_finishes_warmup}
use vpn_control_api.Routes.Advance.{ticked, advance_warmup_lem, update_route_health_zero_weight}

abbrev fresh : Route
fresh = record {
  node_id = 1;
  entry_node_id = none;
  health_status = warming_up;
  base_weight = 50;
  effective_weight = 10;
  cooldown_until = none;
  warmup_stage = some 0;
  warmup_started_at = some (aware 0);
  is_active = true;
  updated_at = 0;
}

abbrev weightless : Route
weightless = record fresh {
  base_weight = 0;
  effective_weight = 0;
  health_status = healthy;
  warmup_stage = none;
  warmup_started_at = none;
}

abbrev cooling : Route
cooling = record fresh {
  health_status = blocked;
  effective_weight = 0;
  cooldown_until = some (naive (hours 6));
  warmup_stage = none;
  warmup_started_at = none;
}

abbrev routes : Table Route
routes = (7, fresh) ∷ (8, weightless) ∷ (9, cooling) ∷ []

recover_refused :
    resolve_route_health_action cooling recover (hours 2) 6 default_warmup_stages
    ≡ err route_cooldown_active
unfolding resolve_route_health_action
recover_refused = refl

recover_allowed : resolve_probe_recover cooling (hours 6) ≡ some (warming 10 0 (hours 6))
unfolding resolve_probe_recover
recover_allowed = refl

second_stage :
    resolve_warmup_tick fresh (minutes 30) default_warmup_stages
    ≡ some (warming 25 1 (minutes 30), advanced)
unfolding resolve_warmup_tick stage_weight
second_stage = refl

resolve_route_health_action-IsConsistent_example : IsConsistent 50 (settled degraded 25)
resolve_route_health_action-IsConsistent_example =
    resolve_route_health_action-IsConsistent fresh set_degraded 5 6 default_warmup_stages
      (omega arith) (unfold resolve_route_health_action in refl)

run_finishes_warmup_example :
    ((run default_warmup_stages fresh (minutes 61 ∷ minutes 122 ∷ [])).health_status ≡ healthy)
    × ((run default_warmup_stages fresh (minutes 61 ∷ minutes 122 ∷ [])).effective_weight ≡ 50)
run_finishes_warmup_example =
    run_finishes_warmup default_warmup_stages fresh 0 0 60 (minutes 61 ∷ minutes 122 ∷ [])
      (record { status = refl; stage = refl; started = refl }) (omega arith) (omega arith)
      (omega arith) (omega arith)

advance_warmup_lem_example :
    (after : Table Route) × (out : RouteWarmupTickOut) × (advance_warmup default_warmup_stages
        (minutes 30)
        routes
      ≡ ok (after, out))
    × ((k : ℕ) → lookup k after ≡ ticked default_warmup_stages (minutes 30) (lookup k routes))
unfolding lookup
advance_warmup_lem_example =
    advance_warmup_lem default_warmup_stages (minutes 30) routes (refl, (refl, (refl, tt)))

update_route_health_zero_weight_example :
    update_route_health default_warmup_stages 8 set_degraded 6 5 routes ≡ err integrity_error
unfolding lookup
update_route_health_zero_weight_example =
    update_route_health_zero_weight default_warmup_stages 8 set_degraded 6 5 routes {r = weightless}
      refl refl refl (inl refl)
