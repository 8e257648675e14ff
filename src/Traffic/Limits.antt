-- ===== src/Traffic/Limits.antt =====
-- What services/traffic/users/service.py does about a subscription that has used up its traffic.
use vpn_control_api.Base.{
  ℕ, ◌+◌, ◌<◌, ◌≡◌, ◌⊎◌, refl, inl, inr, Bool, true, false, none, some, List, [], ◌∷◌, ◌==◌, ==_iff,
  if◌then◌else◌, arith, Option-cases, option_split, Bool-cases, if_both, if_split, ap, sym, ◌∙◌,
}
use mathlib.Core.Path.{subst}
use vpn_control_api.Base.Table.{Table, lookup}
use vpn_control_api.Traffic.Ingest.{
  VpnKey, SubscriptionUsage, UserTrafficIn, TrafficDb, is_usable, charge, exceeds, charge_all,
  revoked_key, revoke_keys, is_active_of, revoke_subscriptions, over_own_limit,
  ingest_users_traffic, count_items,
}

pub lookup-revoke_keys :
    (k : ℕ) (selected : ℕ → VpnKey → Bool) (t : Table VpnKey)
    → lookup k (revoke_keys selected t).0 ≡ elim (lookup k t) [
      | none ↦ none
      | some key ↦ some (if selected k key then revoked_key key else key)
    ]
unfolding lookup revoke_keys
lookup-revoke_keys k selected [] = refl
lookup-revoke_keys k selected ((id, key) ∷ t) =
    ground (arith, lookup-revoke_keys k selected t, ==_iff k id)

-- No key of the subscription can be used.
abbrev pub IsCut : ℕ → ℕ → Table VpnKey → Type 0
IsCut now s keys =
    (k : ℕ) (key : VpnKey)
    → lookup k keys ≡ some key
    → key.subscription_id ≡ some s
    → is_usable now key ≡ false

pub revoke_keys-keeps_IsCut :
    (now s : ℕ) (selected : ℕ → VpnKey → Bool) (t : Table VpnKey)
    → IsCut now s t
    → IsCut now s (revoke_keys selected t).0
revoke_keys-keeps_IsCut now s selected t cut k key found mine = elim (Option-cases (lookup k t)) [
  | inl missing ↦ ground (arith, lookup-revoke_keys k selected t)
  | inr (old, e) ↦ ground (arith, lookup-revoke_keys k selected t, cut k old)
]

revoke_keys-IsCut :
    (now s : ℕ) (t : Table VpnKey) → IsCut now s (revoke_keys (is_active_of now s) t).0
revoke_keys-IsCut now s t k key found mine = elim (Option-cases (lookup k t)) [
  | inl missing ↦ ground (arith, lookup-revoke_keys k (is_active_of now s) t)
  | inr (old, e) ↦ ground (arith, lookup-revoke_keys k (is_active_of now s) t, ==_iff s s)
]

abbrev Listed : ℕ → List ℕ → Type 0
Listed s [] = ⊥
Listed s (x ∷ xs) = (s ≡ x) ⊎ Listed s xs

revoke_subscriptions-keeps_IsCut :
    (now s : ℕ) (ss : List ℕ) (t : Table VpnKey)
    → IsCut now s t
    → IsCut now s (revoke_subscriptions now ss t).0
unfolding revoke_subscriptions
revoke_subscriptions-keeps_IsCut now s [] t cut = cut
revoke_subscriptions-keeps_IsCut now s (x ∷ xs) t cut =
    revoke_subscriptions-keeps_IsCut now s xs (revoke_keys (is_active_of now x) t).0
      (revoke_keys-keeps_IsCut now s (is_active_of now x) t cut)

revoke_subscriptions-IsCut :
    (now s : ℕ) (ss : List ℕ) (t : Table VpnKey)
    → Listed s ss
    → IsCut now s (revoke_subscriptions now ss t).0
unfolding revoke_subscriptions
revoke_subscriptions-IsCut now s [] t l = absurd l
revoke_subscriptions-IsCut now s (x ∷ xs) t (inl e) =
    revoke_subscriptions-keeps_IsCut now s xs (revoke_keys (is_active_of now x) t).0 (
      subst (λ y. IsCut now s (revoke_keys (is_active_of now y) t).0) e (revoke_keys-IsCut now s t))
revoke_subscriptions-IsCut now s (x ∷ xs) t (inr l) =
    revoke_subscriptions-IsCut now s xs (revoke_keys (is_active_of now x) t).0 l

-- The new row of a subscription.
pub lookup-charge_all :
    (s : ℕ) (deltas : Table ℕ) (t : Table SubscriptionUsage)
    → lookup s (charge_all deltas t).0 ≡ elim (lookup s t) [
      | none ↦ none
      | some sub ↦ elim (lookup s deltas) [ none ↦ some sub | some delta ↦ some (charge delta sub) ]
    ]
unfolding lookup charge_all
lookup-charge_all s deltas [] = refl
lookup-charge_all s deltas ((id, sub) ∷ t) = elim (Bool-cases (s == id)) [
  | inl same ↦
      let e : s ≡ id = (==_iff s id).0 same in
      ground (arith, lookup-charge_all s deltas t, ap (λ k. lookup k deltas) e)
  | inr other ↦ ground (arith, lookup-charge_all s deltas t)
]

charge_all-Listed :
    (s delta : ℕ) (deltas : Table ℕ) (t : Table SubscriptionUsage) {sub : SubscriptionUsage}
    → lookup s t ≡ some sub
    → lookup s deltas ≡ some delta
    → exceeds sub.plan (sub.used_traffic_bytes + delta) ≡ true
    → Listed s (charge_all deltas t).1
unfolding lookup charge_all
charge_all-Listed s delta deltas [] found charged over = absurd (ground arith)
charge_all-Listed s delta deltas ((id, sub) ∷ t) {sub = old} found charged over =
    elim (Bool-cases (s == id)) [
      | inl same ↦
          let e : s ≡ id = (==_iff s id).0 same in
          let here : lookup id deltas ≡ some delta = ap (λ k. lookup k deltas) (sym e) ∙ charged in
          option_split (λ (p : Table SubscriptionUsage × List ℕ). Listed s p.1) (lookup id deltas)
            (λ missing. absurd (ground arith))
            (λ d at.
              if_split (Listed s) (exceeds sub.plan (sub.used_traffic_bytes + d)) (λ _. inl e)
                (λ under. absurd (ground arith)))
      | inr other ↦
          let rest = charge_all-Listed s delta deltas t {sub = old} (ground arith) charged over in
          option_split (λ (p : Table SubscriptionUsage × List ℕ). Listed s p.1) (lookup id deltas)
            (λ _. rest)
            (λ d _.
              if_both (Listed s) (exceeds sub.plan (sub.used_traffic_bytes + d)) (inr rest) rest)
    ]

-- Where a batch of reports has raised the counter of a subscription, and the counter is then at the limit of its plan
-- or above it, no key of the subscription can be used after the batch: each is revoked, inactive or past its end.
pub ingest_users_traffic-IsCut :
    (now : ℕ) (items : List UserTrafficIn) (db : TrafficDb) (s : ℕ)
    {before after : SubscriptionUsage}
    → lookup s db.subscriptions ≡ some before
    → lookup s (ingest_users_traffic now items db).0.subscriptions ≡ some after
    → before.used_traffic_bytes < after.used_traffic_bytes
    → exceeds after.plan after.used_traffic_bytes ≡ true
    → IsCut now s (ingest_users_traffic now items db).0.keys
unfolding ingest_users_traffic
ingest_users_traffic-IsCut now items db s {before} {after} found charged more over =
    let tally =
      count_items now db.keys items
        (record { keys = db.keys; deltas = []; history = []; processed = 0 }) in
    let exceeded = (charge_all tally.deltas db.subscriptions).1 in
    elim (Option-cases (lookup s tally.deltas)) [
      | inl none_counted ↦
          absurd (ground (arith, lookup-charge_all s tally.deltas db.subscriptions))
      | inr (delta, counted) ↦
          let listed =
            charge_all-Listed s delta tally.deltas db.subscriptions found counted
              (ground (arith, lookup-charge_all s tally.deltas db.subscriptions)) in
          revoke_keys-keeps_IsCut now s (over_own_limit now items)
            (revoke_subscriptions now exceeded tally.keys).0
            (revoke_subscriptions-IsCut now s exceeded tally.keys listed)
    ]
