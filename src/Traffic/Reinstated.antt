-- ===== src/Traffic/Reinstated.antt =====
-- What the reset of services/traffic/users/reconcilers/reset.py does to the keys of a subscription.
use vpn_control_api.Base.{
  ℕ, ◌*◌, ◌-◌, ◌≡◌, ◌⊎◌, refl, inl, inr, true, false, none, some, List, [], ◌∷◌, ◌==◌, ==_iff,
  if◌then◌else◌, arith, Bool-cases, ap, sym, ◌∙◌, if_both, if_split,
}
use mathlib.Core.Option.{some-injective}
use vpn_control_api.Base.Table.{Table, lookup, lookup-modify}
use vpn_control_api.Traffic.Ingest.{
  VpnKey, ResetStrategy, no_reset, day, week, month, SubscriptionUsage, revoked_key,
}
use vpn_control_api.Traffic.Reset.{
  Calendar, reset_cutoff, needs_reset, reset_key, is_resettable, bulk_reset_traffic_by_subscription,
  reset_subscription, reset_all, tick_resets, revoke_key,
}

lookup-bulk_reset :
    (k s : ℕ) (t : Table VpnKey)
    → lookup k (bulk_reset_traffic_by_subscription s t).0 ≡ elim (lookup k t) [
      | none ↦ none
      | some key ↦ some (if is_resettable s key then reset_key key else key)
    ]
unfolding lookup bulk_reset_traffic_by_subscription
lookup-bulk_reset k s [] = refl
lookup-bulk_reset k s ((id, key) ∷ t) = ground (arith, lookup-bulk_reset k s t, ==_iff k id)

-- The row of a key is still the given one, or it has been reset.
abbrev MaybeReset : ℕ → VpnKey → Table VpnKey → Type 0
MaybeReset k key keys = (lookup k keys ≡ some key) ⊎ (lookup k keys ≡ some (reset_key key))

bulk_reset-MaybeReset :
    (k s : ℕ) (key : VpnKey) (keys : Table VpnKey)
    → MaybeReset k key keys
    → MaybeReset k key (bulk_reset_traffic_by_subscription s keys).0
bulk_reset-MaybeReset k s key keys (inl same) = elim (Bool-cases (is_resettable s key)) [
  | inl mine ↦ inr (ground (arith, lookup-bulk_reset k s keys))
  | inr other ↦ inl (ground (arith, lookup-bulk_reset k s keys))
]
bulk_reset-MaybeReset k s key keys (inr done) = inr (elim (Bool-cases (is_resettable s key)) [
  | inl mine ↦ ground (arith, lookup-bulk_reset k s keys)
  | inr other ↦ ground (arith, lookup-bulk_reset k s keys)
])

bulk_reset-mine :
    (k s : ℕ) (key : VpnKey) (keys : Table VpnKey)
    → is_resettable s key ≡ true
    → MaybeReset k key keys
    → lookup k (bulk_reset_traffic_by_subscription s keys).0 ≡ some (reset_key key)
bulk_reset-mine k s key keys mine (inl same) = ground (arith, lookup-bulk_reset k s keys)
bulk_reset-mine k s key keys mine (inr done) = ground (arith, lookup-bulk_reset k s keys)

reset_all-MaybeReset :
    (k : ℕ) (key : VpnKey) (strategy : ResetStrategy) (c now : ℕ) (t : Table SubscriptionUsage)
    (keys : Table VpnKey)
    → MaybeReset k key keys
    → MaybeReset k key (reset_all strategy c now t keys).keys
unfolding reset_all
reset_all-MaybeReset k key strategy c now [] keys state = state
reset_all-MaybeReset k key strategy c now ((id, sub) ∷ t) keys state =
    reset_all-MaybeReset k key strategy c now t _ (
      if_both (λ (p : Table VpnKey × List ℕ). MaybeReset k key p.0) (needs_reset strategy c sub)
        (bulk_reset-MaybeReset k id key keys state) state)

-- A key that was reset stays so.
reset_all-keeps :
    (k : ℕ) (key : VpnKey) (strategy : ResetStrategy) (c now : ℕ) (t : Table SubscriptionUsage)
    (keys : Table VpnKey)
    → lookup k keys ≡ some (reset_key key)
    → lookup k (reset_all strategy c now t keys).keys ≡ some (reset_key key)
reset_all-keeps k key strategy c now t keys done =
    elim (reset_all-MaybeReset k (reset_key key) strategy c now t keys (inl done)) [
      | inl e ↦ e
      | inr e ↦ e
    ]

lookup-reset_all :
    (s : ℕ) (strategy : ResetStrategy) (c now : ℕ) (t : Table SubscriptionUsage)
    (keys : Table VpnKey)
    → lookup s (reset_all strategy c now t keys).subscriptions ≡ elim (lookup s t) [
      | none ↦ none
      | some sub ↦ some (if needs_reset strategy c sub then reset_subscription now sub else sub)
    ]
unfolding lookup reset_all
lookup-reset_all s strategy c now [] keys = refl
lookup-reset_all s strategy c now ((id, sub) ∷ t) keys =
    let first =
      if needs_reset strategy c sub
      then bulk_reset_traffic_by_subscription id keys
      else (keys, []) in
    elim (Bool-cases (s == id)) [
      | inl same ↦ ground arith
      | inr other ↦ ground (arith, lookup-reset_all s strategy c now t first.0)
    ]

-- The keys of a subscription that is due.
reset_all-due :
    (k s : ℕ) (key : VpnKey) (strategy : ResetStrategy) (c now : ℕ) (t : Table SubscriptionUsage)
    (keys : Table VpnKey) {sub : SubscriptionUsage}
    → lookup s t ≡ some sub
    → needs_reset strategy c sub ≡ true
    → is_resettable s key ≡ true
    → MaybeReset k key keys
    → lookup k (reset_all strategy c now t keys).keys ≡ some (reset_key key)
unfolding lookup reset_all
reset_all-due k s key strategy c now [] keys found due mine state = absurd (ground arith)
reset_all-due k s key strategy c now ((id, sub) ∷ t) keys {sub = old} found due mine state =
    elim (Bool-cases (s == id)) [
      | inl same ↦
          let here : some sub ≡ some old = ground arith in
          let row : sub ≡ old = some-injective sub old here in
          let now_due = ap (needs_reset strategy c) row ∙ due in
          let owned = ap (λ x. is_resettable x key) (sym ((==_iff s id).0 same)) ∙ mine in
          reset_all-keeps k key strategy c now t _ (
            if_split (λ (p : Table VpnKey × List ℕ). lookup k p.0 ≡ some (reset_key key))
              (needs_reset strategy c sub) (λ _. bulk_reset-mine k id key keys owned state)
              (λ e. absurd (ground arith)))
      | inr other ↦ reset_all-due k s key strategy c now t _ {sub = old} (ground arith) due mine (
          if_both (λ (p : Table VpnKey × List ℕ). MaybeReset k key p.0) (needs_reset strategy c sub)
            (bulk_reset-MaybeReset k id key keys state) state)
    ]

-- Before the strategy of a subscription has its turn, its row is the old one; or a key is reset already.
abbrev Pending :
    ℕ → ℕ → SubscriptionUsage → VpnKey → Table SubscriptionUsage → Table VpnKey → Type 0
Pending k s sub key t keys =
    ((lookup s t ≡ some sub) × MaybeReset k key keys) ⊎ (lookup k keys ≡ some (reset_key key))

reset_all-Pending :
    (k s : ℕ) (key : VpnKey) (strategy : ResetStrategy) (c now : ℕ) (t : Table SubscriptionUsage)
    (keys : Table VpnKey) (sub : SubscriptionUsage)
    → is_resettable s key ≡ true
    → Pending k s sub key t keys
    → Pending k s sub key
        (reset_all strategy c now t keys).subscriptions
        (reset_all strategy c now t keys).keys
reset_all-Pending k s key strategy c now t keys sub mine (inl (found, state)) =
    elim (Bool-cases (needs_reset strategy c sub)) [
      | inl due ↦ inr (reset_all-due k s key strategy c now t keys found due mine state)
      | inr kept ↦ inl (
        ground (arith, lookup-reset_all s strategy c now t keys),
        reset_all-MaybeReset k key strategy c now t keys state,
      )
    ]
reset_all-Pending k s key strategy c now t keys sub mine (inr done) =
    inr (reset_all-keeps k key strategy c now t keys done)

reset_all-done :
    (k s : ℕ) (key : VpnKey) (strategy : ResetStrategy) {c cutoff : ℕ} (now : ℕ)
    (t : Table SubscriptionUsage) (keys : Table VpnKey) (sub : SubscriptionUsage)
    → some c ≡ some cutoff
    → needs_reset strategy cutoff sub ≡ true
    → is_resettable s key ≡ true
    → Pending k s sub key t keys
    → lookup k (reset_all strategy c now t keys).keys ≡ some (reset_key key)
reset_all-done k s key strategy {c} {cutoff} now t keys sub e due mine (inl (found, state)) =
    reset_all-due k s key strategy c now t keys found
      (ap (λ x. needs_reset strategy x sub) (some-injective c cutoff e) ∙ due) mine state
reset_all-done k s key strategy {c} now t keys sub e due mine (inr done) =
    reset_all-keeps k key strategy c now t keys done

-- A tick resets each active key of a subscription that is due.
tick_resets-resets :
    (calendar : Calendar) (now : ℕ) (k s : ℕ) (key : VpnKey) (sub : SubscriptionUsage)
    (strategy : ResetStrategy) {cutoff : ℕ} (t : Table SubscriptionUsage) (keys : Table VpnKey)
    → reset_cutoff calendar now strategy ≡ some cutoff
    → needs_reset strategy cutoff sub ≡ true
    → is_resettable s key ≡ true
    → lookup s t ≡ some sub
    → lookup k keys ≡ some key
    → lookup k (tick_resets calendar now t keys).keys ≡ some (reset_key key)
unfolding tick_resets
tick_resets-resets calendar now k s key sub no_reset t keys e due mine found at =
    absurd (ground arith)
tick_resets-resets calendar now k s key sub day t keys e due mine found at =
    let r1 = reset_all day (calendar.midnight now) now t keys in
    let r2 =
      reset_all week (calendar.midnight (now - calendar.weekday now * 86400)) now r1.subscriptions
        r1.keys in
    reset_all-keeps k key month (calendar.midnight (calendar.first_of_month now)) now
      r2.subscriptions r2.keys
      (reset_all-keeps k key week (calendar.midnight (now - calendar.weekday now * 86400)) now
        r1.subscriptions r1.keys
        (reset_all-done k s key day now t keys sub e due mine (inl (found, inl at))))
tick_resets-resets calendar now k s key sub week t keys e due mine found at =
    let r1 = reset_all day (calendar.midnight now) now t keys in
    let r2 =
      reset_all week (calendar.midnight (now - calendar.weekday now * 86400)) now r1.subscriptions
        r1.keys in
    reset_all-keeps k key month (calendar.midnight (calendar.first_of_month now)) now
      r2.subscriptions r2.keys
      (reset_all-done k s key week now r1.subscriptions r1.keys sub e due mine (
        reset_all-Pending k s key day (calendar.midnight now) now t keys sub mine
          (inl (found, inl at))))
tick_resets-resets calendar now k s key sub month t keys e due mine found at =
    let r1 = reset_all day (calendar.midnight now) now t keys in
    let r2 =
      reset_all week (calendar.midnight (now - calendar.weekday now * 86400)) now r1.subscriptions
        r1.keys in
    reset_all-done k s key month now r2.subscriptions r2.keys sub e due mine (
      reset_all-Pending k s key week (calendar.midnight (now - calendar.weekday now * 86400)) now
        r1.subscriptions r1.keys sub mine
        (reset_all-Pending k s key day (calendar.midnight now) now t keys sub mine
          (inl (found, inl at))))

-- A key that revoke_key has revoked is no longer revoked after a tick for which its subscription is due, and its counter
-- is 0: revoke_key leaves the key active, and the reset takes every revoked active key of the subscription for one
-- that had used up its traffic.
pub revoke_key-reinstated :
    (calendar : Calendar) (now : ℕ) (k s : ℕ) (key : VpnKey) (sub : SubscriptionUsage)
    (strategy : ResetStrategy) {cutoff : ℕ} (t : Table SubscriptionUsage)
    (keys revoked : Table VpnKey) {withdrawn : List ℕ}
    → lookup k keys ≡ some key
    → key.subscription_id ≡ some s
    → key.is_active ≡ true
    → revoke_key k keys ≡ some (revoked, withdrawn)
    → lookup s t ≡ some sub
    → reset_cutoff calendar now strategy ≡ some cutoff
    → needs_reset strategy cutoff sub ≡ true
    → (lookup k revoked ≡ some (record key { is_revoked = true }))
      × (lookup k (tick_resets calendar now t revoked).keys
          ≡ some (record key { used_traffic_bytes = 0; is_revoked = false }))
unfolding revoke_key
revoke_key-reinstated calendar now k s key sub strategy t keys revoked at mine active done found e
      due =
    let taken : lookup k revoked ≡ some (revoked_key key) = elim (Bool-cases key.is_revoked) [
      | inl before ↦ ground arith
      | inr after ↦ ground (arith, lookup-modify k k revoked_key keys, ==_iff k k)
    ] in
    (
      taken,
      tick_resets-resets calendar now k s (revoked_key key) sub strategy t revoked e due
          (ground (arith, ==_iff s s)) found taken,
    )
