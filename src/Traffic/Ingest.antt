-- ===== src/Traffic/Ingest.antt =====
-- `ingest_users_traffic` of services/traffic/users/service.py. Its two early returns are left to the
-- loops, which have nothing to do then.
use vpn_control_api.Base.{
  ℕ, ◌+◌, ◌*◌, Bool, true, false, not, ◌&&◌, ◌||◌, Option, none, some, List, [], ◌∷◌, ◌++◌, ltb,
  leb, ◌==◌, is_id, if◌then◌else◌, ℤ, pos_part, length,
}
use vpn_control_api.Base.Table.{Table, lookup, modify}

-- The columns of `VpnKey` that traffic reads and writes.
pub record VpnKey : Type 0 where
  pub client_id : ℕ
  pub subscription_id : Option ℕ
  pub traffic_limit_mb : ℤ
  pub used_traffic_bytes : ℕ
  pub is_revoked : Bool
  pub is_active : Bool
  pub valid_until : ℕ

pub data ResetStrategy : Type 0 where
  no_reset : ResetStrategy
  day : ResetStrategy
  week : ResetStrategy
  month : ResetStrategy

-- Those of `Plan`.
pub record PlanLimit : Type 0 where
  pub traffic_limit_bytes : ℕ
  pub reset_strategy : ResetStrategy
  pub is_active : Bool

-- Those of `Subscription`, with its plan, if it has one.
pub record SubscriptionUsage : Type 0 where
  pub used_traffic_bytes : ℕ
  pub lifetime_used_traffic_bytes : ℕ
  pub is_active : Bool
  pub last_traffic_reset_at : Option ℕ
  pub traffic_warning_threshold_pct : ℕ
  pub plan : Option PlanLimit

-- `UserTrafficIn`
pub record UserTrafficIn : Type 0 where
  pub identifier : ℕ
  pub delta_bytes : ℕ

-- The tables; `withdrawn` lists the keys whose placements have been asked to become inactive.
pub record TrafficDb : Type 0 where
  pub keys : Table VpnKey
  pub subscriptions : Table SubscriptionUsage
  pub history : List (ℕ × ℕ)
  pub withdrawn : List ℕ

-- `active_only` of `list_by_client_ids`, and the same test of `list_active_by_subscription_id`.
abbrev pub is_usable : ℕ → VpnKey → Bool
is_usable now key = key.is_active && (ltb now key.valid_until && not key.is_revoked)

-- `key_by_client.get(identifier)`
unfoldable pub find_key : ℕ → ℕ → Table VpnKey → Option (ℕ × VpnKey)
find_key now identifier [] = none
find_key now identifier ((id, key) ∷ t) =
    let rest = find_key now identifier t in
    if (key.client_id == identifier) && is_usable now key then some (id, key) else rest

-- `subscription_deltas[id] += delta`, on a `defaultdict(int)`.
unfoldable pub add_delta : ℕ → ℕ → Table ℕ → Table ℕ
add_delta id delta [] = (id, delta) ∷ []
add_delta id delta ((j, x) ∷ t) =
    let rest = add_delta id delta t in if id == j then (j, x + delta) ∷ t else (j, x) ∷ rest

abbrev pub add_for : Option ℕ → ℕ → Table ℕ → Table ℕ
unfolding add_delta
add_for none delta deltas = deltas
add_for (some id) delta deltas = add_delta id delta deltas

-- What the first loop has changed and collected.
pub record Tally : Type 0 where
  pub keys : Table VpnKey
  pub deltas : Table ℕ
  pub history : List (ℕ × ℕ)
  pub processed : ℕ

abbrev pub use_key : ℕ → VpnKey → VpnKey
use_key delta key = record key { used_traffic_bytes = key.used_traffic_bytes + delta }

-- An item of a known key.
unfoldable pub count_item : ℕ → VpnKey → ℕ → Tally → Tally
unfolding add_for
count_item id key delta tally = if delta == 0 then tally else record {
  keys = modify id (use_key delta) tally.keys;
  deltas = add_for key.subscription_id delta tally.deltas;
  history = tally.history ++ ((id, delta) ∷ []);
  processed = tally.processed + 1;
}

-- The first loop; `known` are the keys as they were fetched.
unfoldable pub count_items : ℕ → Table VpnKey → List UserTrafficIn → Tally → Tally
unfolding count_item find_key
count_items now known [] tally = tally
count_items now known (item ∷ items) tally =
    count_items now known items (elim (find_key now item.identifier known) [
      | none ↦ tally
      | some (id, key) ↦ count_item id key item.delta_bytes tally
    ])

abbrev pub charge : ℕ → SubscriptionUsage → SubscriptionUsage
charge delta sub = record sub {
  used_traffic_bytes = sub.used_traffic_bytes + delta;
  lifetime_used_traffic_bytes = sub.lifetime_used_traffic_bytes + delta;
}

-- `sub.plan`, a limit above 0, and that it is reached.
abbrev pub exceeds : Option PlanLimit → ℕ → Bool
exceeds none used = false
exceeds (some plan) used = ltb 0 plan.traffic_limit_bytes && leb plan.traffic_limit_bytes used

-- The loop over the subscriptions: their new rows, and `exceeded_sub_ids`.
unfoldable pub charge_all : Table ℕ → Table SubscriptionUsage → Table SubscriptionUsage × List ℕ
charge_all deltas [] = ([], [])
charge_all deltas ((id, sub) ∷ t) =
    let rest = charge_all deltas t in
    elim (lookup id deltas) [
      | none ↦ ((id, sub) ∷ rest.0, rest.1)
      | some delta ↦ (
        (id, charge delta sub) ∷ rest.0,
        if exceeds sub.plan (sub.used_traffic_bytes + delta) then id ∷ rest.1 else rest.1,
      )
    ]

abbrev pub revoked_key : VpnKey → VpnKey
revoked_key key = record key { is_revoked = true }

-- A loop that revokes the selected keys: their new rows, and which they are.
unfoldable pub revoke_keys : (ℕ → VpnKey → Bool) → Table VpnKey → Table VpnKey × List ℕ
revoke_keys selected [] = ([], [])
revoke_keys selected ((id, key) ∷ t) =
    let rest = revoke_keys selected t in
    if selected id key
    then ((id, revoked_key key) ∷ rest.0, id ∷ rest.1)
    else ((id, key) ∷ rest.0, rest.1)

-- `list_active_by_subscription_id`
abbrev pub is_active_of : ℕ → ℕ → ℕ → VpnKey → Bool
is_active_of now subscription_id id key =
    is_id key.subscription_id subscription_id && is_usable now key

-- `_revoke_subscription_keys` for each exceeded subscription.
unfoldable pub revoke_subscriptions : ℕ → List ℕ → Table VpnKey → Table VpnKey × List ℕ
unfolding revoke_keys
revoke_subscriptions now [] keys = (keys, [])
revoke_subscriptions now (s ∷ ss) keys =
    let first = revoke_keys (is_active_of now s) keys in
    let rest = revoke_subscriptions now ss first.0 in (rest.0, first.1 ++ rest.1)

abbrev pub mib : ℕ
mib = 1024 * 1024

unfoldable pub is_reported : List UserTrafficIn → ℕ → Bool
is_reported [] client_id = false
is_reported (item ∷ items) client_id = (item.identifier == client_id) || is_reported items client_id

abbrev pub has_no_subscription : VpnKey → Bool
has_no_subscription key = elim key.subscription_id [ none ↦ true | some s ↦ false ]

-- The guards of the third loop, over the keys that were fetched: those that still can be used.
abbrev pub over_own_limit : ℕ → List UserTrafficIn → ℕ → VpnKey → Bool
over_own_limit now items id key =
    (is_reported items key.client_id && is_usable now key)
    && (has_no_subscription key
        && (ltb 0 (pos_part key.traffic_limit_mb * mib)
            && leb (pos_part key.traffic_limit_mb * mib) key.used_traffic_bytes))

-- `ingest_users_traffic`; it returns how many items were processed and how many keys revoked.
unfoldable pub ingest_users_traffic : ℕ → List UserTrafficIn → TrafficDb → TrafficDb × ℕ × ℕ
unfolding count_items charge_all revoke_subscriptions is_reported
ingest_users_traffic now items db =
    let tally =
      count_items now db.keys items
        (record { keys = db.keys; deltas = []; history = []; processed = 0 }) in
    let charged = charge_all tally.deltas db.subscriptions in
    let first = revoke_subscriptions now charged.1 tally.keys in
    let second = revoke_keys (over_own_limit now items) first.0 in
    (
      record {
        keys = second.0;
        subscriptions = charged.0;
        history = db.history ++ tally.history;
        withdrawn = db.withdrawn ++ (first.1 ++ second.1);
      },
      tally.processed,
      length first.1 + length second.1,
    )
