-- ===== src/Traffic/Usage.antt =====
-- The counters of services/traffic/users/service.py: what a batch of reports adds to them.
use vpn_control_api.Base.{
  ℕ, ◌+◌, ◌≡◌, refl, inl, inr, Bool, Option, none, some, List, [], ◌∷◌, ◌==◌, ==_iff, is_id,
  if◌then◌else◌, arith, Option-cases, Bool-cases, ◌∙◌,
}
use vpn_control_api.Base.Table.{Table, lookup, lookup-modify}
use vpn_control_api.Traffic.Ingest.{
  VpnKey, SubscriptionUsage, UserTrafficIn, TrafficDb, find_key, add_delta, Tally, use_key,
  count_item, count_items, charge, charge_all, revoke_keys, is_active_of, revoke_subscriptions,
  over_own_limit, ingest_users_traffic,
}
use vpn_control_api.Traffic.Ingest.{revoked_key}
use vpn_control_api.Traffic.Limits.{lookup-revoke_keys, lookup-charge_all}

-- What one item adds to a key, and to a subscription: the key is the one that its identifier has found.
abbrev pub added_to_key : Option (ℕ × VpnKey) → ℕ → ℕ → ℕ
added_to_key none delta k = 0
added_to_key (some (id, key)) delta k = if k == id then delta else 0

abbrev pub added_to_subscription : Option (ℕ × VpnKey) → ℕ → ℕ → ℕ
added_to_subscription none delta s = 0
added_to_subscription (some (id, key)) delta s = if is_id key.subscription_id s then delta else 0

-- The sums over a batch.
unfoldable pub key_total : ℕ → Table VpnKey → List UserTrafficIn → ℕ → ℕ
key_total now known [] k = 0
key_total now known (item ∷ items) k =
    added_to_key (find_key now item.identifier known) item.delta_bytes k
    + key_total now known items k

unfoldable pub subscription_total : ℕ → Table VpnKey → List UserTrafficIn → ℕ → ℕ
subscription_total now known [] s = 0
subscription_total now known (item ∷ items) s =
    added_to_subscription (find_key now item.identifier known) item.delta_bytes s
    + subscription_total now known items s

-- A missing delta counts as 0.
abbrev delta_of : Option ℕ → ℕ
delta_of none = 0
delta_of (some d) = d

lookup-add_delta :
    (s id delta : ℕ) (t : Table ℕ)
    → delta_of (lookup s (add_delta id delta t))
      ≡ delta_of (lookup s t) + (if id == s then delta else 0)
unfolding lookup add_delta
lookup-add_delta s id delta [] = ground (arith, ==_iff s id, ==_iff id s)
lookup-add_delta s id delta ((j, x) ∷ t) =
    ground (arith, lookup-add_delta s id delta t, ==_iff s id, ==_iff id s, ==_iff id j, ==_iff s j)

count_item-key :
    (k id delta : ℕ) (known : VpnKey) (tally : Tally) {key : VpnKey}
    → lookup k tally.keys ≡ some key
    → (key' : VpnKey) × (lookup k (count_item id known delta tally).keys ≡ some key')
      × (key'.used_traffic_bytes ≡ key.used_traffic_bytes + added_to_key (some (id, known)) delta k)
unfolding count_item
count_item-key k id delta known tally {key} found =
    let moved = lookup-modify k id (use_key delta) tally.keys in
    elim (Bool-cases (delta == 0)) [
      | inl none_used ↦ (key, ground arith, ground arith)
      | inr some_used ↦ elim (Bool-cases (k == id)) [
        | inl same ↦ (use_key delta key, ground (arith, moved), ground arith)
        | inr other ↦ (key, ground (arith, moved), ground arith)
      ]
    ]

count_item-delta :
    (s id delta : ℕ) (known : VpnKey) (tally : Tally)
    → delta_of (lookup s (count_item id known delta tally).deltas)
      ≡ delta_of (lookup s tally.deltas) + added_to_subscription (some (id, known)) delta s
unfolding count_item
count_item-delta s id delta known tally = elim (Option-cases known.subscription_id) [
  | inl alone ↦ ground arith
  | inr (sub, e) ↦ ground (arith, lookup-add_delta s sub delta tally.deltas)
]

module _ (now : ℕ) (known : Table VpnKey) where
  count_items-key :
      (items : List UserTrafficIn) (k : ℕ) (tally : Tally) {key : VpnKey}
      → lookup k tally.keys ≡ some key
      → (key' : VpnKey) × (lookup k (count_items now known items tally).keys ≡ some key')
        × (key'.used_traffic_bytes ≡ key.used_traffic_bytes + key_total now known items k)
  unfolding count_items key_total
  count_items-key [] k tally {key} found = (key, found, omega arith)
  count_items-key (item ∷ items) k tally {key} found =
      elim (Option-cases (find_key now item.identifier known)) [
        | inl unknown ↦
            let (key', e, n) = count_items-key items k tally found in
            (key', ground arith, ground arith)
        | inr ((id, row), e) ↦
            let (mid, at, m) = count_item-key k id item.delta_bytes row tally found in
            let (key', e', n) =
              count_items-key items k (count_item id row item.delta_bytes tally) at in
            (key', ground arith, ground arith)
      ]

  count_items-delta :
      (items : List UserTrafficIn) (s : ℕ) (tally : Tally)
      → delta_of (lookup s (count_items now known items tally).deltas)
        ≡ delta_of (lookup s tally.deltas) + subscription_total now known items s
  unfolding count_items subscription_total
  count_items-delta [] s tally = omega arith
  count_items-delta (item ∷ items) s tally =
      elim (Option-cases (find_key now item.identifier known)) [
        | inl unknown ↦ ground (arith, count_items-delta items s tally)
        | inr ((id, row), e) ↦ ground (
          arith,
          count_item-delta s id item.delta_bytes row tally,
          count_items-delta items s (count_item id row item.delta_bytes tally),
        )
      ]

-- The loops that revoke keys leave the counters alone.
revoke_keys-used :
    (k : ℕ) (selected : ℕ → VpnKey → Bool) (t : Table VpnKey) {key : VpnKey}
    → lookup k t ≡ some key
    → (key' : VpnKey) × (lookup k (revoke_keys selected t).0 ≡ some key')
      × (key'.used_traffic_bytes ≡ key.used_traffic_bytes)
revoke_keys-used k selected t {key} found = elim (Bool-cases (selected k key)) [
  | inl yes_selected ↦ (revoked_key key, ground (arith, lookup-revoke_keys k selected t), refl)
  | inr not_selected ↦ (key, ground (arith, lookup-revoke_keys k selected t), refl)
]

revoke_subscriptions-used :
    (k now : ℕ) (ss : List ℕ) (t : Table VpnKey) {key : VpnKey}
    → lookup k t ≡ some key
    → (key' : VpnKey) × (lookup k (revoke_subscriptions now ss t).0 ≡ some key')
      × (key'.used_traffic_bytes ≡ key.used_traffic_bytes)
unfolding revoke_subscriptions
revoke_subscriptions-used k now [] t {key} found = (key, found, refl)
revoke_subscriptions-used k now (s ∷ ss) t {key} found =
    let (mid, at, m) = revoke_keys-used k (is_active_of now s) t found in
    let (key', e, n) =
      revoke_subscriptions-used k now ss (revoke_keys (is_active_of now s) t).0 at in
    (key', e, n ∙ m)

charged :
    (s : ℕ) (sub : SubscriptionUsage) (deltas : Table ℕ) (t : Table SubscriptionUsage) (n : ℕ)
    → lookup s t ≡ some sub
    → delta_of (lookup s deltas) ≡ delta_of (lookup s []) + n
    → (sub' : SubscriptionUsage) × (lookup s (charge_all deltas t).0 ≡ some sub')
      × (sub'.used_traffic_bytes ≡ sub.used_traffic_bytes + n)
      × (sub'.lifetime_used_traffic_bytes ≡ sub.lifetime_used_traffic_bytes + n)
unfolding lookup
charged s sub deltas t n found sum = elim (Option-cases (lookup s deltas)) [
  | inl none_counted ↦
      (sub, ground (arith, lookup-charge_all s deltas t), ground arith, ground arith)
  | inr (d, counted) ↦
      (charge d sub, ground (arith, lookup-charge_all s deltas t), ground arith, ground arith)
]

-- A batch of reports adds to the counter of a key exactly the sum of the reports under its client identifier, where a
-- report counts for the key that its identifier finds among the usable ones, whatever is revoked by the batch; and to
-- both counters of a subscription exactly the sum of the reports for its keys.
pub ingest_users_traffic-counts :
    (now : ℕ) (items : List UserTrafficIn) (db : TrafficDb)
    → ((k : ℕ) (key : VpnKey)
        → lookup k db.keys ≡ some key
        → (key' : VpnKey) × (lookup k (ingest_users_traffic now items db).0.keys ≡ some key')
          × (key'.used_traffic_bytes ≡ key.used_traffic_bytes + key_total now db.keys items k))
      × ((s : ℕ) (sub : SubscriptionUsage)
          → lookup s db.subscriptions ≡ some sub
          → (sub' : SubscriptionUsage) × (lookup s
                (ingest_users_traffic now items db).0.subscriptions
              ≡ some sub')
            × (sub'.used_traffic_bytes
                ≡ sub.used_traffic_bytes + subscription_total now db.keys items s)
            × (sub'.lifetime_used_traffic_bytes
                ≡ sub.lifetime_used_traffic_bytes + subscription_total now db.keys items s))
unfolding ingest_users_traffic
ingest_users_traffic-counts now items db =
    let start : Tally = record { keys = db.keys; deltas = []; history = []; processed = 0 } in
    let tally = count_items now db.keys items start in
    let exceeded = (charge_all tally.deltas db.subscriptions).1 in
    (
      λ k key found.
          let (key1, at1, n1) = count_items-key now db.keys items k start found in
          let (key2, at2, n2) = revoke_subscriptions-used k now exceeded tally.keys at1 in
          let (key3, at3, n3) =
            revoke_keys-used k (over_own_limit now items)
              (revoke_subscriptions now exceeded tally.keys).0 at2 in
          (key3, at3, n3 ∙ n2 ∙ n1),
      λ s sub found.
          charged s sub tally.deltas db.subscriptions (subscription_total now db.keys items s) found
            (count_items-delta now db.keys items s start),
    )
