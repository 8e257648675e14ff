-- ===== src/Billing/Extensions.antt =====
-- What the extension of a subscription does to its end.
use vpn_control_api.Base.{
  ℕ, ◌+◌, ◌≤◌, ◌≡◌, refl, ℤ, true, false, Option, none, some, ltb, arith, Bool-cases, inl, inr, ◌⊎◌,
  if_both,
}
use vpn_control_api.Base.Table.{Table, lookup}
use vpn_control_api.Store.{Plan, Subscription}
use vpn_control_api.Billing.Subscriptions.{Target, base_expires, extended, days, period_days}

-- The user has an active subscription under an identifier that lasts until the given instant at least.
unfoldable pub LastsUntil : ℕ → ℕ → ℕ → Table Subscription → Type 0
LastsUntil user_id id until subs =
    (s : Subscription) × (end : ℕ) × (lookup id subs ≡ some s)
    × (s.user_id ≡ user_id)
    × (s.is_active ≡ true)
    × (s.expires_at ≡ some end)
    × (until ≤ end)

base_expires-le : (end : Option ℕ) (now : ℕ) → now ≤ base_expires end now
base_expires-le none now = omega arith
base_expires-le (some t) now = ground arith

pub extended-lasts :
    (t : Target) (plan_id : ℕ) (plan : Plan) (period_months : ℕ) (extra : ℤ) (now : ℕ)
    (s : Subscription)
    → (end : ℕ) × ((extended t plan_id plan period_months extra now s).expires_at ≡ some end)
      × (now + days (period_days period_months) ≤ end)
unfolding extended
extended-lasts t plan_id plan period_months extra now s =
    if_both
      (λ (x : Subscription).
        (end : ℕ) × (x.expires_at ≡ some end) × (now + days (period_days period_months) ≤ end))
      t.plan_changed (now + days (period_days period_months), refl, omega arith)
      (
        base_expires t.sub.expires_at now + days (period_days period_months),
        refl,
        omega (arith, base_expires-le t.sub.expires_at now),
      )

pub extended-active :
    (t : Target) (plan_id : ℕ) (plan : Plan) (period_months : ℕ) (extra : ℤ) (now : ℕ)
    (s : Subscription)
    → let x = extended t plan_id plan period_months extra now s in
      (x.is_active ≡ true) × (x.user_id ≡ s.user_id)
unfolding extended
extended-active t plan_id plan period_months extra now s = ground arith

-- A purchase that does not change the plan adds the whole period to the time that is left, or to the
-- present where none is left: the subscription then ends at one of the two sums, and before neither.
extended_adds_period :
    (t : Target) (plan_id : ℕ) (plan : Plan) (period_months : ℕ) (extra : ℤ) (now old : ℕ)
    (s : Subscription)
    → t.plan_changed ≡ false
    → t.sub.expires_at ≡ some old
    → (start : ℕ) × ((extended t plan_id plan period_months extra now s).expires_at
        ≡ some (start + days (period_days period_months)))
      × (old ≤ start)
      × (now ≤ start)
      × ((start ≡ old) ⊎ (start ≡ now))
unfolding extended
extended_adds_period t plan_id plan period_months extra now old s same ends = (
  base_expires (some old) now,
  ground (arith, same, ends),
  ground arith,
  ground arith,
  elim (Bool-cases (ltb now old)) [ inl left ↦ inl (ground arith) | inr over ↦ inr (ground arith) ],
)
