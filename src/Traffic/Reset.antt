-- ===== src/Traffic/Reset.antt =====
-- The periodic reset of the counters: services/traffic/users/reset_policy.py, the tick of
-- reconcilers/reset.py beside it, and the queries that it runs.
use vpn_control_api.Base.{
  ℕ, ◌+◌, ◌*◌, ◌-◌, Bool, true, false, ◌&&◌, Option, none, some, List, [], ◌∷◌, ◌++◌, ltb, is_id,
  if◌then◌else◌,
}
use vpn_control_api.Base.Table.{Table, lookup, modify}
use vpn_control_api.Traffic.Ingest.{
  VpnKey, ResetStrategy, no_reset, day, week, month, PlanLimit, SubscriptionUsage, revoked_key,
}

abbrev pub resettable_strategies : List ResetStrategy
resettable_strategies = day ∷ week ∷ month ∷ []

-- What the policy takes of `datetime`: the same day at midnight, the weekday from Monday as 0, and
-- the same time on the first day of the month.
pub record Calendar : Type 0 where
  pub midnight : ℕ → ℕ
  pub weekday : ℕ → ℕ
  pub first_of_month : ℕ → ℕ

-- `none` is the `ValueError`.
abbrev pub reset_cutoff : Calendar → ℕ → ResetStrategy → Option ℕ
reset_cutoff calendar now no_reset = none
reset_cutoff calendar now day = some (calendar.midnight now)
reset_cutoff calendar now week = some (calendar.midnight (now - calendar.weekday now * 86400))
reset_cutoff calendar now month = some (calendar.midnight (calendar.first_of_month now))

abbrev pub is_strategy : ResetStrategy → ResetStrategy → Bool
is_strategy no_reset no_reset = true
is_strategy no_reset _ = false
is_strategy day day = true
is_strategy day _ = false
is_strategy week week = true
is_strategy week _ = false
is_strategy month month = true
is_strategy month _ = false

abbrev pub last_reset_before : Option ℕ → ℕ → Bool
last_reset_before none cutoff = true
last_reset_before (some instant) cutoff = ltb instant cutoff

abbrev pub plan_resets : Option PlanLimit → ResetStrategy → Bool
plan_resets none strategy = false
plan_resets (some plan) strategy =
    plan.is_active && (is_strategy plan.reset_strategy strategy && ltb 0 plan.traffic_limit_bytes)

-- The conditions of `list_needing_traffic_reset`.
abbrev pub needs_reset : ResetStrategy → ℕ → SubscriptionUsage → Bool
needs_reset strategy cutoff sub =
    sub.is_active
    && (plan_resets sub.plan strategy && last_reset_before sub.last_traffic_reset_at cutoff)

abbrev pub reset_key : VpnKey → VpnKey
reset_key key = record key { used_traffic_bytes = 0; is_revoked = false }

abbrev pub is_resettable : ℕ → VpnKey → Bool
is_resettable s key = is_id key.subscription_id s && key.is_active

-- The new rows, and the keys that were revoked.
unfoldable pub bulk_reset_traffic_by_subscription : ℕ → Table VpnKey → Table VpnKey × List ℕ
bulk_reset_traffic_by_subscription s [] = ([], [])
bulk_reset_traffic_by_subscription s ((id, key) ∷ t) =
    let rest = bulk_reset_traffic_by_subscription s t in
    if is_resettable s key
    then ((id, reset_key key) ∷ rest.0, if key.is_revoked then id ∷ rest.1 else rest.1)
    else ((id, key) ∷ rest.0, rest.1)

-- The tables that the tick changes, the keys whose placements it asks to become active, and its count.
pub record Reset : Type 0 where
  pub keys : Table VpnKey
  pub subscriptions : Table SubscriptionUsage
  pub reinstated : List ℕ
  pub total_reset : ℕ

abbrev pub reset_subscription : ℕ → SubscriptionUsage → SubscriptionUsage
reset_subscription now sub = record sub {
  used_traffic_bytes = 0;
  last_traffic_reset_at = some now;
  traffic_warning_threshold_pct = 0;
}

-- The loop over the subscriptions of a strategy.
unfoldable pub reset_all : ResetStrategy → ℕ → ℕ → Table SubscriptionUsage → Table VpnKey → Reset
unfolding bulk_reset_traffic_by_subscription
reset_all strategy cutoff now [] keys = record {
  keys = keys;
  subscriptions = [];
  reinstated = [];
  total_reset = 0;
}
reset_all strategy cutoff now ((id, sub) ∷ t) keys =
    let due = needs_reset strategy cutoff sub in
    let first = if due then bulk_reset_traffic_by_subscription id keys else (keys, []) in
    let rest = reset_all strategy cutoff now t first.0 in
    record {
      keys = rest.keys;
      subscriptions = (id, if due then reset_subscription now sub else sub) ∷ rest.subscriptions;
      reinstated = first.1 ++ rest.reinstated;
      total_reset = if due then 1 + rest.total_reset else rest.total_reset;
    }

-- The loop over strategies, each in a session that is committed; a `ValueError` ends it.
unfoldable pub tick_strategies :
    (ResetStrategy → Option ℕ)
    → ℕ
    → List ResetStrategy
    → Table SubscriptionUsage
    → Table VpnKey
    → Reset
unfolding reset_all
tick_strategies cutoff now [] subscriptions keys = record {
  keys = keys;
  subscriptions = subscriptions;
  reinstated = [];
  total_reset = 0;
}
tick_strategies cutoff now (strategy ∷ strategies) subscriptions keys = elim (cutoff strategy) [
  | none ↦ record { keys = keys; subscriptions = subscriptions; reinstated = []; total_reset = 0 }
  | some c ↦
      let first = reset_all strategy c now subscriptions keys in
      let rest = tick_strategies cutoff now strategies first.subscriptions first.keys in
      record {
        keys = rest.keys;
        subscriptions = rest.subscriptions;
        reinstated = first.reinstated ++ rest.reinstated;
        total_reset = first.total_reset + rest.total_reset;
      }
]

-- `tick`
unfoldable pub tick_resets : Calendar → ℕ → Table SubscriptionUsage → Table VpnKey → Reset
unfolding tick_strategies
tick_resets calendar now = tick_strategies (reset_cutoff calendar now) now resettable_strategies

-- `revoke_key` of services/vpn/keys/service.py: the new rows, and the keys whose placements it asks to become
-- inactive; `none` is the answer 404.
unfoldable pub revoke_key : ℕ → Table VpnKey → Option (Table VpnKey × List ℕ)
unfolding lookup modify
revoke_key id keys = elim (lookup id keys) [
  | none ↦ none
  | some key ↦ some (if key.is_revoked then (keys, []) else (modify id revoked_key keys, id ∷ []))
]
