-- ===== src/Routes/StateMachine.antt =====
-- services/routes/state_machine.py, function by function. The weights of the columns are not
-- negative (a database constraint), so `base_weight <= 0` is a test for zero.
use mathlib.Core.Option
use vpn_control_api.Base.{
  ℕ, ◌+◌, ◌/◌, Bool, Option, none, some, List, min, max, ltb, ◌==◌, if◌then◌else◌, Result, ok,
  get_elem?, err,
}
use vpn_control_api.Routes.Schemas.{
  RouteHealthStatus, healthy, degraded, suspected, blocked, warming_up, RouteHealthAction, block,
  recover, set_healthy, set_degraded, set_suspected, RouteWarmupTickResult, advanced, finalized,
  RouteWarmupStage, Route, RouteStateResolution, default_warmup_stages, aware, hours, minutes,
  to_utc_or_none,
}

-- `RouteCooldownActiveError`
pub data RouteError : Type 0 where
  route_cooldown_active : RouteError

-- The weight under an optional stage: none stands for an index past the last stage.
abbrev pub weight_at : ℕ → Option RouteWarmupStage → ℕ
weight_at base_weight none = base_weight
weight_at base_weight (some stage_config) = min base_weight stage_config.target_weight

unfoldable pub stage_weight : ℕ → ℕ → List RouteWarmupStage → ℕ
stage_weight base_weight stage warmup_stages =
    if base_weight == 0 then 0 else weight_at base_weight (get_elem? warmup_stages stage)

unfoldable pub initial_warmup_weight : ℕ → ℕ
initial_warmup_weight base_weight =
    if base_weight == 0 then 0 else weight_at base_weight (get_elem? default_warmup_stages 0)

-- `now + timedelta(hours=h) if h > 0 else None`
abbrev pub cooldown_from : ℕ → ℕ → Option ℕ
cooldown_from now cooldown_hours =
    if cooldown_hours == 0 then none else some (now + hours cooldown_hours)

-- `cooldown_until is not None and cooldown_until > now`
abbrev pub in_cooldown : Option ℕ → ℕ → Bool
in_cooldown none now = Bool.false
in_cooldown (some until) now = ltb now until

-- A state with no cooldown and no warm-up.
abbrev pub settled : RouteHealthStatus → ℕ → RouteStateResolution
settled status weight = record {
  health_status = status;
  effective_weight = weight;
  cooldown_until = none;
  warmup_stage = none;
  warmup_started_at = none;
}

abbrev pub warming : ℕ → ℕ → ℕ → RouteStateResolution
warming weight stage started = record {
  health_status = warming_up;
  effective_weight = weight;
  cooldown_until = none;
  warmup_stage = some stage;
  warmup_started_at = some started;
}

abbrev pub blocked_state : Option ℕ → RouteStateResolution
blocked_state cooldown_until = record {
  health_status = blocked;
  effective_weight = 0;
  cooldown_until = cooldown_until;
  warmup_stage = none;
  warmup_started_at = none;
}

-- The chain of tests on the action.
unfoldable pub resolve_route_health_action :
    Route
    → RouteHealthAction
    → ℕ
    → ℕ
    → List RouteWarmupStage
    → Result RouteError RouteStateResolution
unfolding stage_weight
resolve_route_health_action route block now cooldown_hours warmup_stages =
    ok (blocked_state (cooldown_from now cooldown_hours))
resolve_route_health_action route recover now cooldown_hours warmup_stages =
    if in_cooldown (to_utc_or_none route.cooldown_until) now
    then err route_cooldown_active
    else ok (warming (stage_weight route.base_weight 0 warmup_stages) 0 now)
resolve_route_health_action route set_healthy now cooldown_hours warmup_stages =
    ok (settled healthy route.base_weight)
resolve_route_health_action route set_degraded now cooldown_hours warmup_stages =
    ok (settled degraded (max 1 (min route.base_weight (route.base_weight / 2))))
resolve_route_health_action route set_suspected now cooldown_hours warmup_stages =
    ok (settled suspected (max 1 (min route.base_weight (route.base_weight / 3))))

unfoldable pub resolve_probe_block : ℕ → ℕ → RouteStateResolution
resolve_probe_block checked_at cooldown_hours =
    blocked_state (cooldown_from checked_at cooldown_hours)

abbrev pub is_blocked : RouteHealthStatus → Bool
is_blocked blocked = Bool.true
is_blocked _ = Bool.false

unfoldable pub resolve_probe_recover : Route → ℕ → Option RouteStateResolution
unfolding initial_warmup_weight
resolve_probe_recover route checked_at =
    if is_blocked route.health_status
    then if in_cooldown (to_utc_or_none route.cooldown_until) checked_at
      then none
      else some (warming (initial_warmup_weight route.base_weight) 0 checked_at)
    else none

unfoldable pub resolve_bootstrap_recovery : ℕ → ℕ → RouteStateResolution
unfolding initial_warmup_weight
resolve_bootstrap_recovery route_base_weight now =
    warming (initial_warmup_weight route_base_weight) 0 now

-- `_healthy_state`
abbrev pub healthy_state : Route → RouteStateResolution
healthy_state route = settled healthy route.base_weight

-- The part of `resolve_warmup_tick` below the tests on `None`: the current stage has been looked up,
-- none again for an index past the last one. `now < started + hold` is
-- `elapsed_minutes < hold_minutes`, without its division.
unfoldable pub tick_from :
    Route
    → ℕ
    → List RouteWarmupStage
    → ℕ
    → ℕ
    → Option RouteWarmupStage
    → Option (RouteStateResolution × RouteWarmupTickResult)
tick_from route now warmup_stages stage started none = some (healthy_state route, finalized)
tick_from route now warmup_stages stage started (some current) =
    if ltb now (started + minutes current.hold_minutes)
    then none
    else elim (get_elem? warmup_stages (stage + 1)) [
      | none ↦ some (healthy_state route, finalized)
      | some following ↦ some (
        warming (stage_weight route.base_weight (stage + 1) warmup_stages) (stage + 1) now,
        advanced,
      )
    ]

abbrev pub tick_or_finalize :
    Route
    → ℕ
    → List RouteWarmupStage
    → Option ℕ
    → Option ℕ
    → Option (RouteStateResolution × RouteWarmupTickResult)
unfolding tick_from
tick_or_finalize route now warmup_stages (some stage) (some started) =
    tick_from route now warmup_stages stage started (get_elem? warmup_stages stage)
tick_or_finalize route now warmup_stages _ _ = some (healthy_state route, finalized)

-- The pair `(None, None)` of the source is `none`: the hold of the stage is not over.
unfoldable pub resolve_warmup_tick :
    Route → ℕ → List RouteWarmupStage → Option (RouteStateResolution × RouteWarmupTickResult)
unfolding tick_from
resolve_warmup_tick route now warmup_stages =
    tick_or_finalize route now warmup_stages route.warmup_stage
      (to_utc_or_none route.warmup_started_at)

-- `update_by_id` with a `RouteStateUpdate` of the resolution: the columns that it leaves.
abbrev pub stored : Route → RouteStateResolution → ℕ → Route
stored route s now = record route {
  health_status = s.health_status;
  effective_weight = s.effective_weight;
  cooldown_until = Option.map aware s.cooldown_until;
  warmup_stage = s.warmup_stage;
  warmup_started_at = Option.map aware s.warmup_started_at;
  updated_at = now;
}
