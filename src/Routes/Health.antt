-- ===== src/Routes/Health.antt =====
-- What the health actions of services/routes/state_machine.py do to a route.
use vpn_control_api.Base.{ℕ, ◌≤◌, ◌≡◌, ◌≢◌, none, List, arith, ok}
use vpn_control_api.Routes.Schemas.{
  blocked, warming_up, RouteHealthAction, block, recover, set_healthy, set_degraded, set_suspected,
  RouteWarmupStage, Route, RouteStateResolution,
}
use vpn_control_api.Routes.StateMachine.{stage_weight, resolve_route_health_action}

pub stage_weight-le :
    (base stage : ℕ) (stages : List RouteWarmupStage) → stage_weight base stage stages ≤ base
unfolding stage_weight
stage_weight-le base stage stages = ground arith

-- What the state machine keeps of a resolved state, for a route of a given base weight.
pub record IsConsistent (base_weight : ℕ) (s : RouteStateResolution) : Type 0 where
  pub within_base : s.effective_weight ≤ base_weight
  pub blocked_is_off : s.health_status ≡ blocked → s.effective_weight ≡ 0
  pub cooldown_only_blocked : s.health_status ≢ blocked → s.cooldown_until ≡ none
  pub warming_has_stage :
      s.health_status ≡ warming_up → (s.warmup_stage ≢ none) × (s.warmup_started_at ≢ none)
  pub others_have_none :
      s.health_status ≢ warming_up → (s.warmup_stage ≡ none) × (s.warmup_started_at ≡ none)

-- With a base weight of at least 1, every action that is not refused resolves to a consistent state: the weight is within the
-- base weight, a blocked route has weight 0, only a blocked route has a cooldown, and exactly a warming-up route has a warm-up stage and start.
pub resolve_route_health_action-IsConsistent :
    (route : Route) (action : RouteHealthAction) (now cooldown_hours : ℕ)
    (stages : List RouteWarmupStage) {s : RouteStateResolution}
    → 1 ≤ route.base_weight
    → resolve_route_health_action route action now cooldown_hours stages ≡ ok s
    → IsConsistent route.base_weight s
unfolding resolve_route_health_action
resolve_route_health_action-IsConsistent route block now h stages pos e = ground arith
resolve_route_health_action-IsConsistent route recover now h stages pos e =
    ground (arith, stage_weight-le route.base_weight 0 stages)
resolve_route_health_action-IsConsistent route set_healthy now h stages pos e = ground arith
resolve_route_health_action-IsConsistent route set_degraded now h stages pos e = ground arith
resolve_route_health_action-IsConsistent route set_suspected now h stages pos e = ground arith
