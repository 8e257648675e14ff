-- ===== src/Routes/Service.antt =====
-- The operations of services/routes/service.py that move the health state of stored routes.
use vpn_control_api.Base.{
  ℕ, ◌+◌, Bool, true, false, ◌&&◌, none, some, List, [], ◌∷◌, ltb, if◌then◌else◌, Result, ok, err,
}
use vpn_control_api.Base.Table.{Table, lookup, modify}
use vpn_control_api.Routes.Schemas.{
  RouteHealthAction, RouteHealthStatus, warming_up, RouteWarmupTickResult, advanced, finalized,
  RouteWarmupStage, Route, RouteStateResolution,
}
use vpn_control_api.Routes.StateMachine.{stored, resolve_route_health_action, resolve_warmup_tick}

-- The HTTP errors 404, 409 and 500, and the failure of the check constraint
-- `ck_route_effective_weight_lte_base_weight` in the database.
pub data RouteServiceError : Type 0 where
  not_found cooldown_active update_failed integrity_error : RouteServiceError

-- `route_repository.update_by_id(route.id, RouteStateUpdate(…))`, which returns the row again.
unfoldable pub write_state :
    ℕ → RouteStateResolution → ℕ → Table Route → Result RouteServiceError (Table Route × Route)
write_state id s now db =
    let after = modify id (λ r. stored r s now) db in
    elim (lookup id after) [
      | none ↦ err update_failed
      | some r ↦ if ltb r.base_weight r.effective_weight then err integrity_error else ok (after, r)
    ]

-- `RouteService.update_route_health`
unfoldable pub update_route_health :
    List RouteWarmupStage
    → ℕ
    → RouteHealthAction
    → ℕ
    → ℕ
    → Table Route
    → Result RouteServiceError (Table Route × Route)
unfolding write_state
update_route_health stages id action cooldown_hours now db = elim (lookup id db) [
  | none ↦ err not_found
  | some route ↦
      if route.is_active
      then elim (resolve_route_health_action route action now cooldown_hours stages) [
        | err _ ↦ err cooldown_active
        | ok s ↦ write_state id s now db
      ]
      else err not_found
]

-- `RouteWarmupTickOut`
pub record RouteWarmupTickOut : Type 0 where
  pub processed : ℕ
  pub advanced : ℕ
  pub finalized : ℕ

abbrev pub is_warming_up : RouteHealthStatus → Bool
is_warming_up warming_up = true
is_warming_up _ = false

-- `RouteRepository.list_warming_up`; the order, by `updated_at`, is the caller's concern.
unfoldable pub list_warming_up : Table Route → List (ℕ × Route)
list_warming_up [] = []
list_warming_up ((id, r) ∷ t) =
    let rest = list_warming_up t in
    if r.is_active && is_warming_up r.health_status then (id, r) ∷ rest else rest

abbrev pub count_tick : RouteWarmupTickResult → RouteWarmupTickOut → RouteWarmupTickOut
count_tick advanced out = record out { advanced = out.advanced + 1 }
count_tick finalized out = record out { finalized = out.finalized + 1 }

-- The loop of `advance_warmup` over the listed rows.
unfoldable pub advance_rows :
    List RouteWarmupStage
    → ℕ
    → List (ℕ × Route)
    → Table Route
    → RouteWarmupTickOut
    → Result RouteServiceError (Table Route × RouteWarmupTickOut)
unfolding write_state
advance_rows stages now [] db out = ok (db, out)
advance_rows stages now ((id, route) ∷ rest) db before =
    let out = record before { processed = before.processed + 1 } in
    elim (resolve_warmup_tick route now stages) [
      | none ↦ advance_rows stages now rest db out
      | some (s, result) ↦ elim (write_state id s now db) [
        | err e ↦ err e
        | ok (after, _) ↦ advance_rows stages now rest after (count_tick result out)
      ]
    ]

-- `RouteService.advance_warmup`
unfoldable pub advance_warmup :
    List RouteWarmupStage
    → ℕ
    → Table Route
    → Result RouteServiceError (Table Route × RouteWarmupTickOut)
unfolding advance_rows list_warming_up
advance_warmup stages now db =
    advance_rows stages now (list_warming_up db) db
      (record { processed = 0; advanced = 0; finalized = 0 })
