-- ===== src/Fleet/Blocks.antt =====
-- What it takes for a probe report to block a route, and what a base weight of 0 does to the reports.
use vpn_control_api.Base.{
  ℕ, ◌+◌, ap, ◌||◌, ◌&&◌, refl, if_both, if_split, option_split, Result, ◌≤◌, ◌≡◌, inl, inr, true,
  false, some, ok, arith, filter, Option-cases, ==_iff,
}
use vpn_control_api.Base.Table.{lookup, lookup-modify}
use vpn_control_api.Routes.Schemas.{healthy, Route, RouteStateResolution}
use vpn_control_api.Routes.StateMachine.{is_blocked, settled, stored, resolve_probe_recover}
use vpn_control_api.Routes.Service.{RouteServiceError, write_state}
use vpn_control_api.Fleet.Rows.{ProbeSignal, ProbePolicy, FleetDb}
use vpn_control_api.Fleet.Signals.{
  is_synthetic, create_signal, synthetic_of_route, count_consecutive_route_failures,
}
use vpn_control_api.Fleet.Probes.{
  is_degraded, is_suspected, route_entry_is_unhealthy, get_previous_signal, is_row,
  mesh_path_healthy_for_route, mesh_path_healthy_for_backend, next_state, move_route,
  degrade_route_after_probe, recover_route_after_probe, apply_to_route, apply_route_health_policy,
  report,
}
use vpn_control_api.Fleet.Streaks.{streak, count_failures-take}

-- A route that is blocked now and was not before.
abbrev pub BecomesBlocked : ℕ → FleetDb → FleetDb → Type 0
BecomesBlocked id db after =
    (r : Route) × (r' : Route) × (lookup id db.routes ≡ some r)
    × (lookup id after.routes ≡ some r')
    × (is_blocked r.health_status ≡ false)
    × (is_blocked r'.health_status ≡ true)

-- A move blocks no route but its own, and that one only by a state that says so.
move_route-blocks :
    (k id now : ℕ) (s : RouteStateResolution) (db after : FleetDb)
    → move_route k s now db ≡ ok after
    → BecomesBlocked id db after
    → (is_blocked s.health_status ≡ true) × (id ≡ k)
unfolding move_route write_state
move_route-blocks k id now s db after e (r, r', b, a, nb, yb) = ground (
  arith,
  lookup-modify id k (λ (x : Route). stored x s now) db.routes,
  lookup-modify k k (λ (x : Route). stored x s now) db.routes,
  ==_iff id k,
)

unchanged_blocks_none :
    (id : ℕ) (db after : FleetDb) → db.routes ≡ after.routes → ¬ (BecomesBlocked id db after)
unchanged_blocks_none id db after e (r, r', b, a, nb, yb) = ground (arith, ap (lookup id) e)

recovered_lem :
    (route : Route) (t : ℕ) {s : RouteStateResolution}
    → resolve_probe_recover route t ≡ some s
    → is_blocked s.health_status ≡ false
unfolding resolve_probe_recover
recovered_lem route t e = ground arith

blocked_by :
    (k id now : ℕ) (s : RouteStateResolution) (db after : FleetDb)
    → is_blocked s.health_status ≡ false
    → move_route k s now db ≡ ok after
    → ¬ (BecomesBlocked id db after)
blocked_by k id now s db after open_state e b =
    ground (arith, move_route-blocks k id now s db after e b)

-- A reachable probe blocks no route.
recover_blocks_none :
    (k id t now : ℕ) (route : Route) (db after : FleetDb)
    → recover_route_after_probe k route t now db ≡ ok after
    → ¬ (BecomesBlocked id db after)
unfolding recover_route_after_probe
recover_blocks_none k id t now route db after =
    let Goal =
      λ (r : Result RouteServiceError FleetDb). r ≡ ok after → ¬ (BecomesBlocked id db after) in
    let same : Goal (ok db) = λ e. unchanged_blocks_none id db after (ground arith) in
    if_both Goal (is_suspected route.health_status || is_degraded route.health_status)
      (λ e. blocked_by k id now (settled healthy route.base_weight) db after refl e)
      (if_both Goal (is_blocked route.health_status)
        (if_both Goal (route_entry_is_unhealthy route db) same (
          option_split Goal (resolve_probe_recover route t) (λ _. same)
            (λ s e. blocked_by k id now s db after (recovered_lem route t e))))
        same)

next_state-blocks :
    (policy : ProbePolicy) (route : Route) (t n : ℕ) {s : RouteStateResolution}
    → next_state policy route t n ≡ some s
    → is_blocked s.health_status ≡ true
    → policy.route_block_after_failures ≤ n
unfolding next_state
next_state-blocks policy route t n e b = ground arith

-- What stands behind a route that a failure has blocked.
abbrev pub IsProven : ProbePolicy → ℕ → ℕ → FleetDb → Type 0
IsProven policy id now db =
    (policy.route_block_after_failures ≤ streak id db.signals)
    × ((r : Route) (entry : ℕ)
        → lookup id db.routes ≡ some r
        → r.entry_node_id ≡ some entry
        → mesh_path_healthy_for_backend r.node_id now db ≡ false)

many_lem :
    (policy : ProbePolicy) (k id n : ℕ) (db : FleetDb)
    → id ≡ k
    → n ≡ count_consecutive_route_failures k (policy.route_block_after_failures + 2) db.signals
    → policy.route_block_after_failures ≤ n
    → policy.route_block_after_failures ≤ streak id db.signals
unfolding count_consecutive_route_failures
many_lem policy k id n db e c le =
    let counted =
      count_failures-take (policy.route_block_after_failures + 2)
        (filter (synthetic_of_route k) db.signals) in
    omega (arith, ap (λ j. streak j db.signals) e, counted)

degrade_blocks :
    (policy : ProbePolicy) (k id t now : ℕ) (route : Route) (db after : FleetDb)
    → lookup k db.routes ≡ some route
    → degrade_route_after_probe policy k route t now db ≡ ok after
    → BecomesBlocked id db after
    → IsProven policy id now db
unfolding degrade_route_after_probe
degrade_blocks policy k id t now route db after found =
    let limit = policy.route_block_after_failures + 2 in
    let n = count_consecutive_route_failures k limit db.signals in
    let Goal = λ (r : Result RouteServiceError FleetDb).
      r ≡ ok after → BecomesBlocked id db after → IsProven policy id now db in
    let same : Goal (ok db) = λ e b. absurd (unchanged_blocks_none id db after (ground arith) b) in
    if_both Goal (is_blocked route.health_status) same (
      if_split Goal (mesh_path_healthy_for_route route now db) (λ _. same)
        (λ mesh.
          option_split Goal (next_state policy route t n) (λ _. same)
            (λ s go e b.
              let (blocks, mine) = move_route-blocks k id now s db after e b in
              (
                many_lem policy k id n db mine refl (next_state-blocks policy route t n go blocks),
                λ r entry found' through. ground arith,
              ))))

apply_blocks :
    (policy : ProbePolicy) (row : ProbeSignal) (id now : ℕ) (db after : FleetDb)
    → apply_route_health_policy policy row now db ≡ ok after
    → BecomesBlocked id db after
    → IsProven policy id now db
unfolding apply_route_health_policy apply_to_route
apply_blocks policy row id now db after =
    let Goal = λ (r : Result RouteServiceError FleetDb).
      r ≡ ok after → BecomesBlocked id db after → IsProven policy id now db in
    let same : Goal (ok db) = λ e b. absurd (unchanged_blocks_none id db after (ground arith) b) in
    if_both Goal (policy.auto_route_health_enabled && is_synthetic row.probe_kind)
      (option_split Goal row.route_id (λ _. same)
        (λ k _. elim (Option-cases (lookup k db.routes)) [
          | inl gone ↦ rw gone same
          | inr (route, found) ↦ rw found (
              if_both Goal route.is_active
                (if_both Goal row.is_reachable
                  (λ e b. absurd (recover_blocks_none k id row.checked_at now route db after e b))
                  (degrade_blocks policy k id row.checked_at now route db after found))
                same)
        ]))
      same

-- A probe report that succeeds blocks a route that was not blocked only if, with the report's own signal, the newest
-- synthetic signals about that route are at least as many failures in a row as the block threshold of the policy, and,
-- where the route passes an entry, the latest probe of its backend through an entry is missing, failed or too old.
pub report-IsProven :
    (policy : ProbePolicy) (row : ProbeSignal) (id now : ℕ) (db after : FleetDb)
    → report policy row now db ≡ ok after
    → BecomesBlocked id db after
    → IsProven policy id now (record db { signals = create_signal row db.signals })
unfolding report
report-IsProven policy row id now db after =
    let db' = record db { signals = create_signal row db.signals } in
    let Goal = λ (r : Result RouteServiceError FleetDb).
      r ≡ ok after → BecomesBlocked id db after → IsProven policy id now db' in
    if_both Goal (is_row row (get_previous_signal row db'.signals))
      (λ e b. apply_blocks policy row id now db' after e b)
      (λ e b. absurd (unchanged_blocks_none id db' after (ground arith) b))
