-- ===== src/Fleet/EntryDrain.antt =====
-- services/entry/drain_service.py, method by method. The table of nodes stands in the order of their
-- names, which is the order of the candidates. The snapshots of pools that a drain enqueues, and their
-- count, are left out.
use vpn_control_api.Base.{
  ℕ, ◌+◌, ◌*◌, ◌/◌, Bool, true, false, not, ◌&&◌, Option, none, some, List, [], ◌∷◌, max, ltb, leb,
  is_id, if◌then◌else◌, Result, ok, err,
}
use vpn_control_api.Base.Table.{Table, lookup, modify}
use vpn_control_api.Routes.Schemas.{blocked, warming_up, Route, aware}
use vpn_control_api.Routes.StateMachine.{is_blocked}
use vpn_control_api.Routes.Service.{RouteServiceError, integrity_error}
use vpn_control_api.Fleet.Rows.{
  is_entry_role, VpnNode, DrainReason, unhealthy_heartbeat, entry_auto_drain, other_reason,
  NodeAgentState, FleetDb,
}
use vpn_control_api.Fleet.Signals.{count_consecutive_node_failures}

-- The parameters of `EntryAutoDrainService`; its constructor makes `healthy_ticks_for_recovery` at least 1.
pub record EntryAutoDrainService : Type 0 where
  pub probe_failure_threshold : ℕ
  pub max_nodes : ℕ
  pub auto_undrain_enabled : Bool
  pub healthy_ticks_for_recovery : ℕ

-- `EntryAutoDrainResult`
pub record EntryAutoDrainResult : Type 0 where
  pub processed : ℕ
  pub drained : ℕ
  pub routes_blocked : ℕ
  pub skipped : ℕ
  pub undrained : ℕ
  pub routes_unblocked : ℕ

-- The texts `agent_unhealthy` and `probe_failures:{n}`.
pub data UnhealthyReason : Type 0 where
  agent_unhealthy : UnhealthyReason
  probe_failures : ℕ → UnhealthyReason

-- A node and the state of its agent, as the query of the candidates has read them.
pub record Candidate : Type 0 where
  pub id : ℕ
  pub entry : VpnNode
  pub agent_state : Option NodeAgentState

abbrev pub is_candidate : VpnNode → Bool
is_candidate node =
    node.is_active && (node.is_enabled && (not node.is_virtual && is_entry_role node.role))

-- `_list_entry_candidates`
unfoldable pub list_entry_candidates : Table VpnNode → Table NodeAgentState → List Candidate
list_entry_candidates [] agents = []
list_entry_candidates ((id, node) ∷ t) agents =
    let rest = list_entry_candidates t agents in
    if is_candidate node
    then record { id = id; entry = node; agent_state = lookup id agents } ∷ rest
    else rest

abbrev pub is_unhealthy : Option NodeAgentState → Bool
is_unhealthy none = false
is_unhealthy (some state) = not state.is_healthy

-- `_unhealthy_reason`
unfoldable pub unhealthy_reason :
    EntryAutoDrainService → Candidate → FleetDb → Option UnhealthyReason
unhealthy_reason self c db =
    let consecutive =
      count_consecutive_node_failures c.id (max (self.probe_failure_threshold * 3) 10) db.signals in
    if is_unhealthy c.agent_state
    then some agent_unhealthy
    else if ltb 0 self.probe_failure_threshold
    then if leb self.probe_failure_threshold consecutive
      then some (probe_failures consecutive)
      else none
    else none

-- `_mark_drain_meta`, without a reason or with one and its instant.
abbrev pub with_drain : Option DrainReason → Option ℕ → NodeAgentState → NodeAgentState
with_drain reason at state = record state {
  heartbeat = record state.heartbeat { drain_reason = reason; drained_at = at };
}

unfoldable pub mark_drain_meta :
    ℕ
    → Option NodeAgentState
    → Option DrainReason
    → Option ℕ
    → Table NodeAgentState
    → Table NodeAgentState
mark_drain_meta id none reason at agents = agents
mark_drain_meta id (some state) reason at agents =
    modify id (λ row. record row { heartbeat = (with_drain reason at state).heartbeat }) agents

-- `_drain_entry`; the Boolean is its result.
unfoldable pub drain_entry : Candidate → ℕ → FleetDb → FleetDb × Bool
unfolding mark_drain_meta
drain_entry c now db = if c.entry.is_draining then (db, false) else (
  record db {
    nodes = modify c.id (λ n. record n { is_draining = true }) db.nodes;
    agents = mark_drain_meta c.id c.agent_state (some entry_auto_drain) (some now) db.agents;
  },
  true,
)

abbrev pub is_auto_drain : Option DrainReason → Bool
is_auto_drain none = false
is_auto_drain (some unhealthy_heartbeat) = false
is_auto_drain (some entry_auto_drain) = true
is_auto_drain (some (other_reason n)) = false

-- The guards of `_try_undrain_entry`.
abbrev pub may_undrain : EntryAutoDrainService → Option NodeAgentState → Bool
may_undrain self none = false
may_undrain self (some state) =
    is_auto_drain state.heartbeat.drain_reason
    && leb (max 1 self.healthy_ticks_for_recovery) state.heartbeat.consecutive_healthy

-- `_try_undrain_entry`
unfoldable pub try_undrain_entry : EntryAutoDrainService → Candidate → FleetDb → FleetDb × Bool
unfolding mark_drain_meta
try_undrain_entry self c db =
    if may_undrain self c.agent_state
    then (
      record db {
        nodes = modify c.id (λ n. record n { is_draining = false }) db.nodes;
        agents = mark_drain_meta c.id c.agent_state none none db.agents;
      },
      true,
    )
    else (db, false)

-- The rows that `_unblock_routes_for_entry` and `_block_routes_for_entry` select.
abbrev pub to_unblock : ℕ → Route → Bool
to_unblock entry_node_id r =
    is_id r.entry_node_id entry_node_id && (r.is_active && is_blocked r.health_status)

abbrev pub to_block : ℕ → Route → Bool
to_block entry_node_id r =
    is_id r.entry_node_id entry_node_id && (r.is_active && not (is_blocked r.health_status))

abbrev pub unblocked_row : ℕ → Route → Route
unblocked_row now r = record r {
  health_status = warming_up;
  effective_weight = max 1 (r.base_weight / 2);
  warmup_stage = some 1;
  warmup_started_at = some (aware now);
  updated_at = now;
}

abbrev pub blocked_row : ℕ → Route → Route
blocked_row now r = record r { health_status = blocked; effective_weight = 0; updated_at = now }

-- Both loops: the selected rows are changed, each by its own UPDATE, and counted.
unfoldable pub update_routes : (Route → Bool) → (Route → Route) → Table Route → Table Route × ℕ
update_routes selected change [] = ([], 0)
update_routes selected change ((id, r) ∷ t) =
    let rest = update_routes selected change t in
    if selected r then ((id, change r) ∷ rest.0, rest.1 + 1) else ((id, r) ∷ rest.0, rest.1)

-- Does a selected row break the check constraint on the weights when it is unblocked?
unfoldable pub violates : ℕ → ℕ → Table Route → Bool
violates entry_node_id now [] = false
violates entry_node_id now ((id, r) ∷ t) =
    let rest = violates entry_node_id now t in
    if to_unblock entry_node_id r && ltb r.base_weight (unblocked_row now r).effective_weight
    then true
    else rest

-- `_unblock_routes_for_entry`
unfoldable pub unblock_routes_for_entry : ℕ → ℕ → FleetDb → Result RouteServiceError (FleetDb × ℕ)
unfolding update_routes violates
unblock_routes_for_entry entry_node_id now db =
    let after = update_routes (to_unblock entry_node_id) (unblocked_row now) db.routes in
    if violates entry_node_id now db.routes
    then err integrity_error
    else ok (record db { routes = after.0 }, after.1)

-- `_block_routes_for_entry`; a weight of 0 breaks no constraint.
unfoldable pub block_routes_for_entry : ℕ → ℕ → FleetDb → FleetDb × ℕ
unfolding update_routes
block_routes_for_entry entry_node_id now db =
    let after = update_routes (to_block entry_node_id) (blocked_row now) db.routes in
    (record db { routes = after.0 }, after.1)
