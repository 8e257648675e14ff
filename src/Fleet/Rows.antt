-- ===== src/Fleet/Rows.antt =====
-- The rows of nodes, agents and probe signals: services/nodes/models.py, services/probe/models.py and
-- services/probe/policy/models.py. Texts other than those that the code compares are numbers.
use vpn_control_api.Base.{ℕ, Bool, true, false, Option, List}
use vpn_control_api.Base.Table.{Table}
use vpn_control_api.Routes.Schemas.{Route}

-- The values of `role`, with those that `ENTRY_ROLES` holds.
pub data Role : Type 0 where
  backend entry whitelist_entry : Role

abbrev pub is_entry_role : Role → Bool
is_entry_role backend = false
is_entry_role entry = true
is_entry_role whitelist_entry = true

-- The values of `drain_source`.
pub data DrainSource : Type 0 where
  admin auto_heal : DrainSource

-- The columns of `VpnNode` that the probes and the drains read and write.
pub record VpnNode : Type 0 where
  pub role : Role
  pub is_active : Bool
  pub is_enabled : Bool
  pub is_virtual : Bool
  pub is_draining : Bool
  pub drain_source : Option DrainSource

-- The reasons of a drain that the code tells apart.
pub data DrainReason : Type 0 where
  unhealthy_heartbeat entry_auto_drain : DrainReason
  other_reason : ℕ → DrainReason

-- `NodeHeartbeatMeta`, which `details` of an agent state holds under `HEARTBEAT_DETAILS_KEY`.
pub record NodeHeartbeatMeta : Type 0 where
  pub consecutive_unhealthy : ℕ
  pub consecutive_healthy : ℕ
  pub drain_reason : Option DrainReason
  pub drained_at : Option ℕ

-- `NodeAgentState`; the table is keyed by the unique `node_id`.
pub record NodeAgentState : Type 0 where
  pub is_healthy : Bool
  pub heartbeat : NodeHeartbeatMeta

-- `ProbeKind`
pub data ProbeKind : Type 0 where
  tcp_connect synthetic_vpn : ProbeKind

-- The columns of `ProbeSignal` that a decision rests on.
pub record ProbeSignal : Type 0 where
  pub id : ℕ
  pub node_id : ℕ
  pub route_id : Option ℕ
  pub probe_kind : ProbeKind
  pub source : ℕ
  pub is_reachable : Bool
  pub checked_at : ℕ
  pub is_active : Bool

-- The columns of `NodePolicy` that the heartbeat reads.
pub record NodePolicy : Type 0 where
  pub heartbeat_unhealthy_drain_threshold : ℕ
  pub heartbeat_healthy_undrain_threshold : ℕ
  pub entry_apply_fail_unhealthy : Bool
  pub entry_apply_fail_threshold : ℕ

-- The columns of `ProbePolicy` that move the health of routes.
pub record ProbePolicy : Type 0 where
  pub auto_route_health_enabled : Bool
  pub route_suspected_after_failures : ℕ
  pub route_degraded_after_failures : ℕ
  pub route_block_after_failures : ℕ
  pub route_block_cooldown_hours : ℕ

-- The tables; the signals stand in the order of every query on them, by `checked_at` and then by
-- `created_at`, the newest first.
pub record FleetDb : Type 0 where
  pub nodes : Table VpnNode
  pub agents : Table NodeAgentState
  pub routes : Table Route
  pub signals : List ProbeSignal
