-- ===== src/Fleet/EntryTests.antt =====
-- Runs of the entry drain and the heartbeat, and their theorems at concrete nodes.
use vpn_control_api.Base.{
  ℕ, ◌≤◌, ◌≡◌, refl, Bool, true, false, none, some, List, [], ◌∷◌, arith, ok, err, filter, take,
}
use vpn_control_api.Base.Table.{lookup, modify}
use vpn_control_api.Routes.Schemas.{healthy, blocked, warming_up, Route, aware}
use vpn_control_api.Routes.Service.{integrity_error}
use vpn_control_api.Fleet.Rows.{
  entry, admin, VpnNode, unhealthy_heartbeat, entry_auto_drain, NodeHeartbeatMeta, NodeAgentState,
  NodePolicy, FleetDb,
}
use vpn_control_api.Fleet.Signals.{count_consecutive_node_failures}
use vpn_control_api.Fleet.Heartbeat.{NodeHeartbeatIn, handle_heartbeat, is_within_drain_cooldown}
use vpn_control_api.Fleet.EntryDrain.{
  EntryAutoDrainService, EntryAutoDrainResult, Candidate, unhealthy_reason, list_entry_candidates,
  drain_entry, try_undrain_entry, to_unblock, violates, agent_unhealthy, blocked_row,
}
use vpn_control_api.Fleet.EntryTick.{tick_entry, run}
use vpn_control_api.Fleet.EntryLaws.{IsOut, IsCurrent}
use vpn_control_api.Fleet.EntryTotal.{run-IsOut}
use vpn_control_api.Fleet.Restore.{
  IsRestorable, tick_entry_restores, tick_entry_refused, drain_entry-undrain,
}
use vpn_control_api.Fleet.Beats.{
  beats, heartbeats_drain_and_restore, handle_heartbeat_ends_cooldown,
}

abbrev service : EntryAutoDrainService
service = record {
  probe_failure_threshold = 3;
  max_nodes = 10;
  auto_undrain_enabled = true;
  healthy_ticks_for_recovery = 3;
}

abbrev node : VpnNode
node = record {
  role = entry;
  is_active = true;
  is_enabled = true;
  is_virtual = false;
  is_draining = false;
  drain_source = none;
}

-- The same node, drained by an administrator.
abbrev held : VpnNode
held = record node { is_draining = true; drain_source = some admin }

abbrev meta : NodeHeartbeatMeta
meta = record {
  consecutive_unhealthy = 0;
  consecutive_healthy = 5;
  drain_reason = none;
  drained_at = none;
}

abbrev well : NodeAgentState
well = record { is_healthy = true; heartbeat = meta }

abbrev ill : NodeAgentState
ill = record well { is_healthy = false }

-- An agent whose entry the service has drained once.
abbrev marked_well : NodeAgentState
marked_well = record well { heartbeat = record meta { drain_reason = some entry_auto_drain } }

abbrev route : Route
route = record {
  node_id = 9;
  entry_node_id = some 1;
  health_status = healthy;
  base_weight = 50;
  effective_weight = 50;
  cooldown_until = none;
  warmup_stage = none;
  warmup_started_at = none;
  is_active = true;
  updated_at = 0;
}

-- A route that is blocked until the instant 1000.
abbrev cooling : Route
cooling = record route {
  health_status = blocked;
  effective_weight = 0;
  cooldown_until = some (aware 1000);
}

abbrev weightless : Route
weightless = record cooling { base_weight = 0 }

abbrev db_of : VpnNode → NodeAgentState → Route → FleetDb
db_of n s r = record {
  nodes = (1, n) ∷ [];
  agents = (1, s) ∷ [];
  routes = (7, r) ∷ [];
  signals = [];
}

abbrev no_counts : EntryAutoDrainResult
no_counts = record {
  processed = 0;
  drained = 0;
  routes_blocked = 0;
  skipped = 0;
  undrained = 0;
  routes_unblocked = 0;
}

-- The tables after a tick on an entry whose agent is ill.
abbrev out_db : FleetDb
out_db = record {
  nodes = (1, record node { is_draining = true }) ∷ [];
  agents =
      (
        1,
        record ill {
          heartbeat = record meta { drain_reason = some entry_auto_drain; drained_at = some 40 };
        },
      )
      ∷ [];
  routes = (7, blocked_row 40 route) ∷ [];
  signals = [];
}

run_on_ill :
    run service 40 (db_of node ill route)
    ≡ ok (out_db, record no_counts { processed = 1; drained = 1; routes_blocked = 1 })
unfolding run lookup modify unhealthy_reason
run_on_ill = refl

run-IsOut_example : IsOut 1 out_db
unfolding lookup list_entry_candidates unhealthy_reason
run-IsOut_example =
    run-IsOut service 40 1 node (db_of node ill route)
      (out_db, record no_counts { processed = 1; drained = 1; routes_blocked = 1 })
      {reason = agent_unhealthy} (refl, tt) (omega arith) run_on_ill refl refl refl

abbrev restorable : Candidate
restorable = record { id = 1; entry = held; agent_state = some marked_well }

restorable-IsRestorable : (r : Route) → IsRestorable service restorable (db_of held marked_well r)
unfolding lookup unhealthy_reason count_consecutive_node_failures filter take
restorable-IsRestorable r = record {
  current = refl;
  well = refl;
  enabled = refl;
  draining = refl;
  allowed = refl;
}

-- The administrator's drain is over, and the route is back before the end of its cooldown.
tick_entry_restores_example :
    (after : FleetDb) × (result : EntryAutoDrainResult) × (tick_entry service restorable 40
        (db_of held marked_well cooling)
        no_counts
      ≡ ok (after, result))
    × (lookup 1 after.nodes ≡ some (record held { is_draining = false }))
    × ((k : ℕ) (r : Route)
        → lookup k ((7, cooling) ∷ []) ≡ some r
        → to_unblock 1 r ≡ true
        → (r' : Route) × (lookup k after.routes ≡ some r')
          × (r'.health_status ≡ warming_up)
          × (1 ≤ r'.effective_weight)
          × (r'.cooldown_until ≡ r.cooldown_until))
unfolding violates
tick_entry_restores_example =
    tick_entry_restores service restorable 40 (db_of held marked_well cooling) no_counts
      (restorable-IsRestorable cooling) refl

tick_entry_refused_example :
    tick_entry service restorable 40 (db_of held marked_well weightless) no_counts
    ≡ err integrity_error
unfolding lookup
tick_entry_refused_example =
    tick_entry_refused service restorable 40 7 weightless (db_of held marked_well weightless)
      no_counts (restorable-IsRestorable weightless) refl refl refl

abbrev calm : Candidate
calm = record { id = 1; entry = node; agent_state = some well }

drain_entry-undrain_example :
    (c' : Candidate) × (d : FleetDb) × (after : FleetDb) × (drain_entry calm 40
        (db_of node well route)
      ≡ (d, true))
    × (c'.id ≡ 1)
    × IsCurrent c' d
    × (c'.agent_state ≡ lookup 1 d.agents)
    × (try_undrain_entry service c' d ≡ (after, true))
    × ((k : ℕ)
        → (lookup k after.nodes ≡ lookup k ((1, node) ∷ []))
          × (lookup k after.agents ≡ lookup k ((1, well) ∷ [])))
unfolding lookup
drain_entry-undrain_example =
    drain_entry-undrain service calm 40 (db_of node well route) well (refl, refl, refl) refl
      (refl, refl) (omega arith)

abbrev policy : NodePolicy
policy = record {
  heartbeat_unhealthy_drain_threshold = 2;
  heartbeat_healthy_undrain_threshold = 3;
  entry_apply_fail_unhealthy = false;
  entry_apply_fail_threshold = 0;
}

abbrev downs : List (Bool × ℕ)
downs = (false, 1) ∷ (false, 2) ∷ []

abbrev ups : List (Bool × ℕ)
ups = (true, 3) ∷ (true, 4) ∷ []

heartbeats_drain_and_restore_example :
    (beats policy ups (beats policy downs (node, meta))).0.is_draining ≡ true
heartbeats_drain_and_restore_example =
    heartbeats_drain_and_restore policy downs ups node meta (refl, refl, refl) refl
      (refl, (refl, tt)) (refl, (refl, tt))

abbrev payload : NodeHeartbeatIn
payload = record {
  is_healthy = false;
  ready = true;
  pool_failures = none;
  upstream_failures = none;
}

-- A drain by the heartbeat at the instant 1, with a cooldown until 101, is cooling down at the instant 3 no longer.
abbrev just_drained : NodeAgentState
just_drained = record ill {
  heartbeat = record meta { drain_reason = some unhealthy_heartbeat; drained_at = some 1 };
}

still_cooling : is_within_drain_cooldown 100 just_drained.heartbeat 3 ≡ true
unfolding is_within_drain_cooldown
still_cooling = refl

handle_heartbeat_ends_cooldown_example :
    (state : NodeAgentState) × (lookup 1
        (handle_heartbeat policy 1
          (record node { is_draining = true })
          payload
          2
          (db_of node just_drained route)).agents
      ≡ some state)
    × (is_within_drain_cooldown 100 state.heartbeat 3 ≡ false)
handle_heartbeat_ends_cooldown_example =
    handle_heartbeat_ends_cooldown policy 1 (record node { is_draining = true }) payload 2 3 100
      (db_of node just_drained route) refl
