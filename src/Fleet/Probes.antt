-- ===== src/Fleet/Probes.antt =====
-- The probe reports of services/probe/ingestion_service.py and the health of routes that follows from
-- them. Alerts, notifications and the requeueing of placements are left out: they leave nodes, routes and
-- signals alone.
use vpn_control_api.Base.{
  ℕ, ◌+◌, ◌*◌, ◌/◌, Bool, true, false, not, ◌&&◌, ◌||◌, Option, none, some, max, leb, ◌==◌,
  if◌then◌else◌, Result, ok, err, List,
}
use vpn_control_api.Base.Table.{lookup}
use vpn_control_api.Routes.Schemas.{
  RouteHealthStatus, healthy, degraded, suspected, Route, RouteStateResolution,
}
use vpn_control_api.Routes.StateMachine.{
  settled, is_blocked, resolve_probe_block, resolve_probe_recover,
}
use vpn_control_api.Routes.Service.{RouteServiceError, write_state}
use vpn_control_api.Fleet.Rows.{VpnNode, ProbeSignal, ProbePolicy, FleetDb}
use vpn_control_api.Fleet.Signals.{
  is_synthetic, create_signal, get_latest_for_node, get_latest_for_route,
  count_consecutive_route_failures, get_latest_mesh_for_backend,
}

-- `MESH_HEALTHY_MAX_AGE_SEC`, in microseconds.
abbrev pub mesh_healthy_max_age : ℕ
mesh_healthy_max_age = 600 * 1000000

abbrev pub is_fresh : Option ProbeSignal → ℕ → Bool
is_fresh none now = false
is_fresh (some mesh) now = mesh.is_reachable && leb now (mesh.checked_at + mesh_healthy_max_age)

-- `_mesh_path_healthy_for_backend`
unfoldable pub mesh_path_healthy_for_backend : ℕ → ℕ → FleetDb → Bool
mesh_path_healthy_for_backend backend_node_id now db =
    is_fresh (get_latest_mesh_for_backend backend_node_id db.routes db.signals) now

-- `_mesh_path_healthy_for_route`; `node_id` is never null.
unfoldable pub mesh_path_healthy_for_route : Route → ℕ → FleetDb → Bool
unfolding mesh_path_healthy_for_backend
mesh_path_healthy_for_route route now db = elim route.entry_node_id [
  | none ↦ false
  | some entry_node_id ↦ mesh_path_healthy_for_backend route.node_id now db
]

abbrev pub cannot_serve : Option VpnNode → Bool
cannot_serve none = false
cannot_serve (some entry) = entry.is_draining || (not entry.is_enabled || not entry.is_active)

-- `_route_entry_is_unhealthy`
unfoldable pub route_entry_is_unhealthy : Route → FleetDb → Bool
route_entry_is_unhealthy route db = elim route.entry_node_id [
  | none ↦ false
  | some entry_node_id ↦ cannot_serve (lookup entry_node_id db.nodes)
]

abbrev pub is_degraded : RouteHealthStatus → Bool
is_degraded degraded = true
is_degraded _ = false

abbrev pub is_suspected : RouteHealthStatus → Bool
is_suspected suspected = true
is_suspected _ = false

-- The chain of tests in `_degrade_route_after_probe`, from the number of failures on.
unfoldable pub next_state : ProbePolicy → Route → ℕ → ℕ → Option RouteStateResolution
unfolding resolve_probe_block
next_state policy route checked_at consecutive =
    if leb policy.route_block_after_failures consecutive
    then some (resolve_probe_block checked_at policy.route_block_cooldown_hours)
    else if leb policy.route_degraded_after_failures consecutive
    then if is_degraded route.health_status
      then none
      else some (settled degraded (max 1 (route.base_weight / 2)))
    else if leb policy.route_suspected_after_failures consecutive
    then if is_suspected route.health_status
      then none
      else some (settled suspected (max 1 (route.base_weight / 3)))
    else none

-- `route_repository.update_by_id` with a `RouteStateUpdate`.
unfoldable pub move_route :
    ℕ → RouteStateResolution → ℕ → FleetDb → Result RouteServiceError FleetDb
unfolding write_state
move_route id s now db = elim (write_state id s now db.routes) [
  | err e ↦ err e
  | ok (routes, _) ↦ ok (record db { routes = routes })
]

-- `_degrade_route_after_probe`
unfoldable pub degrade_route_after_probe :
    ProbePolicy → ℕ → Route → ℕ → ℕ → FleetDb → Result RouteServiceError FleetDb
unfolding mesh_path_healthy_for_route next_state move_route
degrade_route_after_probe policy id route checked_at now db =
    if is_blocked route.health_status
    then ok db
    else if mesh_path_healthy_for_route route now db
    then ok db
    else elim (next_state policy route checked_at
        (count_consecutive_route_failures id (policy.route_block_after_failures + 2) db.signals)) [
          | none ↦ ok db
          | some s ↦ move_route id s now db
        ]

-- `_recover_route_after_probe`
unfoldable pub recover_route_after_probe :
    ℕ → Route → ℕ → ℕ → FleetDb → Result RouteServiceError FleetDb
unfolding route_entry_is_unhealthy move_route
recover_route_after_probe id route checked_at now db =
    if is_suspected route.health_status || is_degraded route.health_status
    then move_route id (settled healthy route.base_weight) now db
    else if is_blocked route.health_status
    then if route_entry_is_unhealthy route db
      then ok db
      else elim (resolve_probe_recover route checked_at) [
        | none ↦ ok db
        | some s ↦ move_route id s now db
      ]
    else ok db

-- The part of `_apply_route_health_policy` below its look-up of the route.
unfoldable pub apply_to_route :
    ProbePolicy → ProbeSignal → ℕ → Option Route → ℕ → FleetDb → Result RouteServiceError FleetDb
unfolding recover_route_after_probe degrade_route_after_probe
apply_to_route policy signal id none now db = ok db
apply_to_route policy signal id (some route) now db =
    if route.is_active
    then if signal.is_reachable
      then recover_route_after_probe id route signal.checked_at now db
      else degrade_route_after_probe policy id route signal.checked_at now db
    else ok db

-- `_apply_route_health_policy`
unfoldable pub apply_route_health_policy :
    ProbePolicy → ProbeSignal → ℕ → FleetDb → Result RouteServiceError FleetDb
unfolding apply_to_route
apply_route_health_policy policy signal now db =
    if policy.auto_route_health_enabled && is_synthetic signal.probe_kind
    then elim signal.route_id [
      | none ↦ ok db
      | some route_id ↦ apply_to_route policy signal route_id (lookup route_id db.routes) now db
    ]
    else ok db

-- `_get_previous_signal`
unfoldable pub get_previous_signal : ProbeSignal → List ProbeSignal → Option ProbeSignal
unfolding get_latest_for_node get_latest_for_route
get_previous_signal signal signals = elim signal.route_id [
  | none ↦ get_latest_for_node signal.node_id signal.source signals
  | some route_id ↦ get_latest_for_route route_id signal.source signals
]

abbrev pub is_row : ProbeSignal → Option ProbeSignal → Bool
is_row row none = false
is_row row (some latest) = latest.id == row.id

-- `report`, from the creation of the signal on: the checks above it have found the node, and the route
-- of the signal is probeable from it.
unfoldable pub report : ProbePolicy → ProbeSignal → ℕ → FleetDb → Result RouteServiceError FleetDb
unfolding create_signal get_previous_signal apply_route_health_policy
report policy row now db =
    let after = record db { signals = create_signal row db.signals } in
    if is_row row (get_previous_signal row after.signals)
    then apply_route_health_policy policy row now after
    else ok after
