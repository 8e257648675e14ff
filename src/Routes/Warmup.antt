-- ===== src/Routes/Warmup.antt =====
-- The warm-up of a route under the ticks of services/routes/state_machine.py.
use vpn_control_api.Base.{
  ◌∙◌, ℕ, zero, suc, ◌+◌, ◌≤◌, ◌<◌, ◌≡◌, inl, inr, refl, none, some, List, [], ◌∷◌, arith,
  if◌then◌else◌, get_elem?, Option-cases, All, All-get_elem?, length, get_elem?-none,
  get_elem?-some,
}
use vpn_control_api.Routes.Schemas.{
  healthy, warming_up, RouteWarmupTickResult, RouteWarmupStage, Route, RouteStateResolution,
  minutes, to_utc_or_none, default_warmup_stages,
}
use vpn_control_api.Routes.StateMachine.{stored, stage_weight, resolve_warmup_tick}
use vpn_control_api.Routes.Service.{is_warming_up}
use vpn_control_api.Routes.Health.{stage_weight-le, IsConsistent}
use native.Mathlib.Decide.{dec_lt}

-- One tick on one warming-up route.
unfoldable pub tick : List RouteWarmupStage → Route → ℕ → Route
tick stages route now = elim (resolve_warmup_tick route now stages) [
  | none ↦ route
  | some (s, _) ↦ stored route s now
]

-- A state that a tick resolves to is consistent, whatever the stages and the route.
pub resolve_warmup_tick-IsConsistent :
    (route : Route) (now : ℕ) (stages : List RouteWarmupStage)
    {p : RouteStateResolution × RouteWarmupTickResult}
    → resolve_warmup_tick route now stages ≡ some p
    → IsConsistent route.base_weight p.0
unfolding resolve_warmup_tick
resolve_warmup_tick-IsConsistent route now stages e = grind (arith, stage_weight-le)

abbrev pub tick_if_warming : List RouteWarmupStage → Route → ℕ → Route
tick_if_warming stages route now =
    if is_warming_up route.health_status then tick stages route now else route

-- The ticks of the reconciler, oldest first.
pub run : List RouteWarmupStage → Route → List ℕ → Route
run stages route [] = route
run stages route (now ∷ rest) = run stages (tick_if_warming stages route now) rest

-- A route in stage `i` since the instant `t`.
pub record IsWarming (i t : ℕ) (route : Route) : Type 0 where
  pub status : route.health_status ≡ warming_up
  pub stage : route.warmup_stage ≡ some i
  pub started : to_utc_or_none route.warmup_started_at ≡ some t

-- Every tick comes at least `hold` minutes after the one before it.
abbrev pub Spaced : ℕ → ℕ → List ℕ → Type 0
Spaced hold t [] = Unit
Spaced hold t (now ∷ rest) = (t + minutes hold ≤ now) × Spaced hold now rest

abbrev pub HoldsAtMost : ℕ → List RouteWarmupStage → Type 0
HoldsAtMost hold = All (λ s. s.hold_minutes ≤ hold)

run-healthy :
    (stages : List RouteWarmupStage) (route : Route) (ts : List ℕ)
    → route.health_status ≡ healthy
    → run stages route ts ≡ route
unfolding run
run-healthy stages route [] h = refl
run-healthy stages route (now ∷ ts) h = ground (arith, run-healthy stages route ts h)

tick_last :
    (stages : List RouteWarmupStage) (route : Route) (i t now hold : ℕ)
    → IsWarming i t route
    → HoldsAtMost hold stages
    → t + minutes hold ≤ now
    → length stages ≤ i + 1
    → ((tick stages route now).health_status ≡ healthy)
      × ((tick stages route now).effective_weight ≡ route.base_weight)
unfolding tick resolve_warmup_tick
tick_last stages route i t now hold w m later last = elim (Option-cases (get_elem? stages i)) [
  | inl past ↦ ground arith
  | inr (s, e) ↦ ground (
    arith,
    All-get_elem? (λ (x : RouteWarmupStage). x.hold_minutes ≤ hold) stages i m e,
    get_elem?-none stages (i + 1) last,
  )
]

tick_next :
    (stages : List RouteWarmupStage) (route : Route) (i t now hold : ℕ)
    → IsWarming i t route
    → HoldsAtMost hold stages
    → t + minutes hold ≤ now
    → i + 1 < length stages
    → IsWarming (i + 1) now (tick stages route now)
      × ((tick stages route now).base_weight ≡ route.base_weight)
unfolding tick resolve_warmup_tick
tick_next stages route i t now hold w m later more =
    let (s, e) = get_elem?-some stages i (omega arith) in
    let (s', e') = get_elem?-some stages (i + 1) more in
    ground (arith, All-get_elem? (λ (x : RouteWarmupStage). x.hold_minutes ≤ hold) stages i m e)

run_warming :
    (stages : List RouteWarmupStage) (route : Route) (now : ℕ) (ts : List ℕ)
    → route.health_status ≡ warming_up
    → run stages route (now ∷ ts) ≡ run stages (tick stages route now) ts
unfolding run
run_warming stages route now ts e = ground arith

-- A route in stage `i` of the warm-up is healthy, at its full base weight, after any ticks that are at least the
-- longest hold apart, if they are at least as many as the stages that are left (and at least one).
pub run_finishes_warmup :
    (stages : List RouteWarmupStage) (route : Route) (i t hold : ℕ) (ts : List ℕ)
    → IsWarming i t route
    → HoldsAtMost hold stages
    → Spaced hold t ts
    → length stages ≤ i + length ts
    → 1 ≤ length ts
    → ((run stages route ts).health_status ≡ healthy)
      × ((run stages route ts).effective_weight ≡ route.base_weight)
run_finishes_warmup stages route i t hold [] w m sp enough some_tick = absurd (omega arith)
run_finishes_warmup stages route i t hold (now ∷ ts) w m sp enough some_tick =
    elim (dec_lt (i + 1) (length stages)) [
      | yes more ↦
          let (w', same) = tick_next stages route i t now hold w m sp.0 more in
          let ih =
            run_finishes_warmup stages (tick stages route now) (i + 1) now hold ts w' m sp.1
              (omega arith) (omega arith) in
          rw (run_warming stages route now ts w.status) (ih.0, ih.1 ∙ same)
      | no last ↦
          let (done, weight) = tick_last stages route i t now hold w m sp.0 (omega arith) in
          rw (run_warming stages route now ts w.status)
            (rw (run-healthy stages (tick stages route now) ts done) (done, weight))
    ]

-- A tick before the hold of the current stage is over changes nothing.
pub tick_early :
    (stages : List RouteWarmupStage) (route : Route) (i t now : ℕ) {s : RouteWarmupStage}
    → IsWarming i t route
    → get_elem? stages i ≡ some s
    → now < t + minutes s.hold_minutes
    → tick stages route now ≡ route
unfolding tick resolve_warmup_tick
tick_early stages route i t now w e early = ground arith

-- Along the default stages a tick never lowers the weight of a route that carries the weight of its stage.
pub tick-le_default :
    (route : Route) (i t now : ℕ)
    → IsWarming i t route
    → route.effective_weight ≡ stage_weight route.base_weight i default_warmup_stages
    → route.effective_weight ≤ (tick default_warmup_stages route now).effective_weight
unfolding tick resolve_warmup_tick stage_weight
tick-le_default route zero t now w e = ground arith
tick-le_default route (suc zero) t now w e = ground arith
tick-le_default route (suc (suc i)) t now w e = ground arith
