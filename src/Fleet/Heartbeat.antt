-- ===== src/Fleet/Heartbeat.antt =====
-- The heartbeat of services/nodes/service.py, which drains and restores nodes, the drain by an
-- administrator of services/nodes/router.py, and the drain cooldown of
-- services/nodes/auto_heal_service.py. Alerts, notifications and snapshots of pools are left out.
use vpn_control_api.Base.{
  ℕ, ◌+◌, Bool, true, false, not, ◌&&◌, ◌||◌, Option, none, some, [], ◌∷◌, ◌++◌, max, ltb, leb,
  ◌==◌, if◌then◌else◌,
}
use vpn_control_api.Base.Table.{Table, lookup, modify}
use vpn_control_api.Fleet.Rows.{
  DrainSource, admin, auto_heal, VpnNode, DrainReason, unhealthy_heartbeat, entry_auto_drain,
  other_reason, NodeHeartbeatMeta, NodeAgentState, NodePolicy, FleetDb,
}

-- The fields of `NodeHeartbeatIn` that its health rests on: of `details`, whether the runtime is ready, the
-- failures of the pool, and those of a configured upstream (none where it is missing or not
-- configured).
pub record NodeHeartbeatIn : Type 0 where
  pub is_healthy : Bool
  pub ready : Bool
  pub pool_failures : Option ℕ
  pub upstream_failures : Option ℕ

abbrev pub reaches : ℕ → Option ℕ → Bool
reaches threshold none = false
reaches threshold (some n) = leb threshold n

-- `_effective_heartbeat_health`
unfoldable pub effective_heartbeat_health : NodePolicy → NodeHeartbeatIn → Bool
effective_heartbeat_health policy payload =
    let threshold = max 1 policy.entry_apply_fail_threshold in
    if payload.is_healthy && payload.ready
    then if policy.entry_apply_fail_unhealthy
      then if reaches threshold payload.pool_failures
        then false
        else not (reaches threshold payload.upstream_failures)
      else true
    else false

-- `NodeHeartbeatMeta()`
abbrev pub blank_meta : NodeHeartbeatMeta
blank_meta = record {
  consecutive_unhealthy = 0;
  consecutive_healthy = 0;
  drain_reason = none;
  drained_at = none;
}

abbrev pub meta_of : Option NodeAgentState → NodeHeartbeatMeta
meta_of none = blank_meta
meta_of (some state) = state.heartbeat

-- `_next_heartbeat_meta`: the new object has no `drained_at`.
unfoldable pub next_heartbeat_meta : NodeHeartbeatMeta → Bool → NodeHeartbeatMeta
next_heartbeat_meta meta is_healthy =
    if is_healthy
    then record {
      consecutive_unhealthy = 0;
      consecutive_healthy = meta.consecutive_healthy + 1;
      drain_reason = meta.drain_reason;
      drained_at = none;
    }
    else record {
      consecutive_unhealthy = meta.consecutive_unhealthy + 1;
      consecutive_healthy = 0;
      drain_reason = meta.drain_reason;
      drained_at = none;
    }

-- `drain_reason in (DRAIN_REASON_UNHEALTHY_HEARTBEAT, None)`
abbrev pub is_heartbeat_reason : Option DrainReason → Bool
is_heartbeat_reason none = true
is_heartbeat_reason (some unhealthy_heartbeat) = true
is_heartbeat_reason (some entry_auto_drain) = false
is_heartbeat_reason (some (other_reason n)) = false

abbrev pub is_admin : Option DrainSource → Bool
is_admin none = false
is_admin (some admin) = true
is_admin (some auto_heal) = false

-- The tests `should_drain` and `should_undrain`.
unfoldable pub should_drain : NodePolicy → VpnNode → NodeHeartbeatMeta → Bool → Bool
should_drain policy node meta is_healthy =
    not is_healthy
    && (not node.is_draining
        && leb (max 1 policy.heartbeat_unhealthy_drain_threshold) meta.consecutive_unhealthy)

unfoldable pub should_undrain : NodePolicy → VpnNode → NodeHeartbeatMeta → Bool → Bool
should_undrain policy node meta is_healthy =
    is_healthy
    && (node.is_draining
        && (node.is_active
            && (node.is_enabled
                && (not (is_admin node.drain_source)
                    && (is_heartbeat_reason meta.drain_reason
                        && leb (max 1 policy.heartbeat_healthy_undrain_threshold)
                            meta.consecutive_healthy)))))

-- `update_by_id` with `is_draining` and `drain_source`.
abbrev pub set_drain : Bool → Option DrainSource → VpnNode → VpnNode
set_drain is_draining source node = record node { is_draining = is_draining; drain_source = source }

-- What a heartbeat makes of a node and of what is known of its agent.
unfoldable pub beat :
    NodePolicy → VpnNode → NodeHeartbeatMeta → Bool → ℕ → VpnNode × NodeHeartbeatMeta
unfolding next_heartbeat_meta should_drain should_undrain
beat policy node before is_healthy now =
    let meta = next_heartbeat_meta before is_healthy in
    if should_drain policy node meta is_healthy
    then (
      set_drain true (some auto_heal) node,
      record meta { drain_reason = some unhealthy_heartbeat; drained_at = some now },
    )
    else if should_undrain policy node meta is_healthy
    then (set_drain false none node, record meta { drain_reason = none; drained_at = none })
    else (node, meta)

-- Whether a heartbeat updates the row of the node.
abbrev pub updates_node : NodePolicy → VpnNode → NodeHeartbeatMeta → Bool → Bool
unfolding next_heartbeat_meta should_drain should_undrain
updates_node policy node before is_healthy =
    let meta = next_heartbeat_meta before is_healthy in
    should_drain policy node meta is_healthy || should_undrain policy node meta is_healthy

-- `upsert` of an agent state.
unfoldable pub upsert : ℕ → NodeAgentState → Table NodeAgentState → Table NodeAgentState
upsert node_id state agents = elim (lookup node_id agents) [
  | none ↦ agents ++ (node_id, state) ∷ []
  | some old ↦ modify node_id (λ _. state) agents
]

-- `handle_heartbeat`, for the node that the agent's token has identified.
unfoldable pub handle_heartbeat : NodePolicy → ℕ → VpnNode → NodeHeartbeatIn → ℕ → FleetDb → FleetDb
unfolding beat effective_heartbeat_health upsert
handle_heartbeat policy node_id node payload now db =
    let is_healthy = effective_heartbeat_health policy payload in
    let before = meta_of (lookup node_id db.agents) in
    let after = beat policy node before is_healthy now in
    record db {
      nodes =
          if updates_node policy node before is_healthy
          then modify node_id (λ row. set_drain after.0.is_draining after.0.drain_source row)
              db.nodes
          else db.nodes;
      agents = upsert node_id (record { is_healthy = is_healthy; heartbeat = after.1 }) db.agents;
    }

-- `drain_node` and `enable_node` of the admin API, on a row.
abbrev pub drained_by_admin : VpnNode → VpnNode
drained_by_admin node = record node { is_draining = true; drain_source = some admin }

abbrev pub enabled_by_admin : VpnNode → VpnNode
enabled_by_admin node = record node { is_draining = false; is_enabled = true; drain_source = none }

abbrev pub cooldown_of : ℕ → Option DrainReason → Option ℕ → ℕ → Bool
cooldown_of drain_cooldown (some unhealthy_heartbeat) (some drained_at) now =
    ltb now (drained_at + drain_cooldown)
cooldown_of drain_cooldown _ _ now = false

-- `_is_within_drain_cooldown`, on what is known of the agent; the cooldown is in microseconds.
unfoldable pub is_within_drain_cooldown : ℕ → NodeHeartbeatMeta → ℕ → Bool
is_within_drain_cooldown drain_cooldown meta now =
    if drain_cooldown == 0
    then false
    else cooldown_of drain_cooldown meta.drain_reason meta.drained_at now
