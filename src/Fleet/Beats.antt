-- ===== src/Fleet/Beats.antt =====
-- Runs of the heartbeat of services/nodes/service.py.
use vpn_control_api.Base.{
  ℕ, suc, ◌+◌, ◌≡◌, inl, inr, ◌⊎◌, Bool, true, false, not, ◌&&◌, some, List, [], ◌∷◌, max, leb,
  arith, Option-cases, ==_refl, length,
}
use mathlib.Core.Path.{subst}
use vpn_control_api.Base.Table.{Table, lookup, lookup-modify, lookup-append}
use vpn_control_api.Fleet.Rows.{
  auto_heal, VpnNode, unhealthy_heartbeat, NodeHeartbeatMeta, NodeAgentState, NodePolicy, FleetDb,
}
use vpn_control_api.Fleet.Heartbeat.{
  NodeHeartbeatIn, is_admin, is_heartbeat_reason, beat, upsert, meta_of, handle_heartbeat,
  is_within_drain_cooldown,
}

-- The health that each heartbeat reports and its instant, oldest first.
unfoldable pub beats :
    NodePolicy → List (Bool × ℕ) → VpnNode × NodeHeartbeatMeta → VpnNode × NodeHeartbeatMeta
unfolding beat
beats policy [] s = s
beats policy ((is_healthy, now) ∷ rest) (node, meta) =
    beats policy rest (beat policy node meta is_healthy now)

-- Every heartbeat reports the given health.
abbrev pub AllReport : Bool → List (Bool × ℕ) → Type 0
AllReport b [] = Unit
AllReport b ((is_healthy, now) ∷ rest) = (is_healthy ≡ b) × AllReport b rest

-- A drain that is not the heartbeat's to end.
abbrev pub IsForeign : VpnNode → NodeHeartbeatMeta → Type 0
IsForeign node meta =
    (node.is_draining ≡ true)
    × ((is_admin node.drain_source ≡ true) ⊎ (is_heartbeat_reason meta.drain_reason ≡ false))

-- The state of an active, enabled node after `n` unhealthy heartbeats in a row.
record IsDown (policy : NodePolicy) (n : ℕ) (node : VpnNode) (meta : NodeHeartbeatMeta)
    : Type 0 where
  active : node.is_active ≡ true
  enabled : node.is_enabled ≡ true
  unhealthy : meta.consecutive_unhealthy ≡ n
  draining : node.is_draining ≡ leb (max 1 policy.heartbeat_unhealthy_drain_threshold) n
  mine :
      node.is_draining ≡ true
      → (node.drain_source ≡ some auto_heal)
        × (meta.drain_reason ≡ some unhealthy_heartbeat)
        × (meta.consecutive_healthy ≡ 0)

beat-IsDown :
    (policy : NodePolicy) (n now : ℕ) (node : VpnNode) (meta : NodeHeartbeatMeta)
    → IsDown policy n node meta
    → IsDown policy (suc n) (beat policy node meta false now).0 (beat policy node meta false now).1
unfolding beat
beat-IsDown policy n now node meta h = record {
  active = ground (arith, h.active);
  enabled = ground (arith, h.enabled);
  unhealthy = ground (arith, h.unhealthy);
  draining = ground (arith, h.unhealthy, h.draining);
  mine = λ d. ground (arith, h.mine, h.unhealthy, h.draining);
}

-- The state of such a node after `m` healthy heartbeats in a row, where it was draining before them or not.
record IsUp (policy : NodePolicy) (drained : Bool) (m : ℕ) (node : VpnNode)
    (meta : NodeHeartbeatMeta) : Type 0 where
  active : node.is_active ≡ true
  enabled : node.is_enabled ≡ true
  draining :
      node.is_draining ≡ (drained && not (leb (max 1 policy.heartbeat_healthy_undrain_threshold) m))
  mine :
      node.is_draining ≡ true
      → (node.drain_source ≡ some auto_heal)
        × (meta.drain_reason ≡ some unhealthy_heartbeat)
        × (meta.consecutive_healthy ≡ m)

beat-IsUp :
    (policy : NodePolicy) (drained : Bool) (m now : ℕ) (node : VpnNode) (meta : NodeHeartbeatMeta)
    → IsUp policy drained m node meta
    → IsUp policy drained
        (suc m)
        (beat policy node meta true now).0
        (beat policy node meta true now).1
unfolding beat
beat-IsUp policy drained m now node meta h = record {
  active = ground (arith, h.active);
  enabled = ground (arith, h.enabled);
  draining = ground (arith, h.active, h.enabled, h.draining, h.mine);
  mine = λ d. ground (arith, h.mine, h.active, h.enabled, h.draining);
}

beats-IsDown :
    (policy : NodePolicy) (bs : List (Bool × ℕ)) (n : ℕ) (s : VpnNode × NodeHeartbeatMeta)
    → AllReport false bs
    → IsDown policy n s.0 s.1
    → IsDown policy (n + length bs) (beats policy bs s).0 (beats policy bs s).1
unfolding beats
beats-IsDown policy [] n s a h = subst (λ k. IsDown policy k s.0 s.1) (omega arith) h
beats-IsDown policy ((b, now) ∷ bs) n (node, meta) (e, a) h = rw e (
    subst
      (λ k.
        IsDown policy k (beats policy ((false, now) ∷ bs) (node, meta)).0
          (beats policy ((false, now) ∷ bs) (node, meta)).1)
      (omega arith)
      (beats-IsDown policy bs (suc n) (beat policy node meta false now) a
        (beat-IsDown policy n now node meta h)))

beats-IsUp :
    (policy : NodePolicy) (bs : List (Bool × ℕ)) (drained : Bool) (m : ℕ)
    (s : VpnNode × NodeHeartbeatMeta)
    → AllReport true bs
    → IsUp policy drained m s.0 s.1
    → IsUp policy drained (m + length bs) (beats policy bs s).0 (beats policy bs s).1
unfolding beats
beats-IsUp policy [] drained m s a h = subst (λ k. IsUp policy drained k s.0 s.1) (omega arith) h
beats-IsUp policy ((b, now) ∷ bs) drained m (node, meta) (e, a) h = rw e (
    subst
      (λ k.
        IsUp policy drained k (beats policy ((true, now) ∷ bs) (node, meta)).0
          (beats policy ((true, now) ∷ bs) (node, meta)).1)
      (omega arith)
      (beats-IsUp policy bs drained (suc m) (beat policy node meta true now) a
        (beat-IsUp policy drained m now node meta h)))

-- Let a node be active, enabled and not draining, with no unhealthy heartbeat last. After unhealthy heartbeats in a
-- row and then healthy ones in a row, it is draining exactly if the unhealthy ones were as many as the drain
-- threshold of the policy and the healthy ones fewer than the threshold for restoring (each threshold at least 1).
pub heartbeats_drain_and_restore :
    (policy : NodePolicy) (downs ups : List (Bool × ℕ)) (node : VpnNode) (meta : NodeHeartbeatMeta)
    → (node.is_active ≡ true) × (node.is_enabled ≡ true) × (node.is_draining ≡ false)
    → meta.consecutive_unhealthy ≡ 0
    → AllReport false downs
    → AllReport true ups
    → (beats policy ups (beats policy downs (node, meta))).0.is_draining ≡ (
        leb (max 1 policy.heartbeat_unhealthy_drain_threshold) (length downs)
        && not (leb (max 1 policy.heartbeat_healthy_undrain_threshold) (length ups)))
heartbeats_drain_and_restore policy downs ups node meta (active, enabled, calm) none_yet a b =
    let down =
      beats-IsDown policy downs 0 (node, meta) a
        (record {
          active = active;
          enabled = enabled;
          unhealthy = none_yet;
          draining = ground arith;
          mine = λ d. ground arith;
        }) in
    let s = beats policy downs (node, meta) in
    let up =
      beats-IsUp policy ups (leb (max 1 policy.heartbeat_unhealthy_drain_threshold) (length downs))
        0 s b
        (record {
          active = down.active;
          enabled = down.enabled;
          draining = ground (arith, down.draining);
          mine = down.mine;
        }) in
    ground (arith, up.draining)

-- The agent's row after an upsert.
lookup-upsert :
    (id : ℕ) (state : NodeAgentState) (agents : Table NodeAgentState)
    → lookup id (upsert id state agents) ≡ some state
unfolding upsert
lookup-upsert id state agents = elim (Option-cases (lookup id agents)) [
  | inl e ↦ ground (arith, lookup-append id id state agents, ==_refl id)
  | inr (old, e) ↦
      ground (arith, lookup-modify id id (λ (s : NodeAgentState). state) agents, ==_refl id)
]

no_cooldown :
    (policy : NodePolicy) (node : VpnNode) (meta : NodeHeartbeatMeta) (is_healthy : Bool)
    (now later cooldown : ℕ)
    → node.is_draining ≡ true
    → is_within_drain_cooldown cooldown (beat policy node meta is_healthy now).1 later ≡ false
unfolding beat is_within_drain_cooldown
no_cooldown policy node meta is_healthy now later cooldown draining = ground arith

-- A heartbeat of a node that is draining already ends every drain cooldown of the node, whenever the drain began and
-- however long the cooldown is.
pub handle_heartbeat_ends_cooldown :
    (policy : NodePolicy) (id : ℕ) (node : VpnNode) (payload : NodeHeartbeatIn)
    (now later cooldown : ℕ) (db : FleetDb)
    → node.is_draining ≡ true
    → (state : NodeAgentState) × (lookup id (handle_heartbeat policy id node payload now db).agents
        ≡ some state)
      × (is_within_drain_cooldown cooldown state.heartbeat later ≡ false)
unfolding handle_heartbeat
handle_heartbeat_ends_cooldown policy id node payload now later cooldown db draining = (
  _,
  lookup-upsert id _ db.agents,
  no_cooldown policy node (meta_of (lookup id db.agents)) _ now later cooldown draining,
)
