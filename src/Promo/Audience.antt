-- ===== src/Promo/Audience.antt =====
-- Whom a code of services/promo/service.py is for, and what it applies to: the tests against what they mean.
use vpn_control_api.Base.{ℕ, ◌↔◌, ◌<◌, ◌≡◌, true, Option, some, arith, inl, inr}
use vpn_control_api.Base.{
  List, [], ◌∷◌, none, not, ◌&&◌, ◌==◌, ==_iff, ==_refl, Bool-cases, refl, ap, count,
}
use vpn_control_api.Base.Table.{Table}
use mathlib.Core.Path.{subst}
use mathlib.Core.Option.{some-injective}
use mathlib.Core.List.{Memᴰ}
use mathlib.Core.List.Memᴰ.{head, tail, cast}
use vpn_control_api.Store.{
  PromoCode, PromoAudience, all, by_plan, no_subscription, has_subscription, PromoAppliesTo, any,
  new_purchase, renewal, OrderType, plan_purchase, subscription_renewal, Subscription,
  PromoActivation,
}
use vpn_control_api.Promo.Service.{
  outlives, is_live_for, has_live, contains, plan_allowed, check_audience, count_for_user, applies,
}

-- An active subscription of the user that has no end, or one after the given instant.
abbrev pub IsLive : ℕ → ℕ → Subscription → Type 0
IsLive user_id now s =
    (s.user_id ≡ user_id) × (s.is_active ≡ true) × ((end : ℕ) → s.expires_at ≡ some end → now < end)

abbrev pub OwnsLive : ℕ → ℕ → Table Subscription → Type 0
OwnsLive user_id now subs = (id : ℕ) × (s : Subscription) × Memᴰ (id, s) subs × IsLive user_id now s

-- Who may use a code.
abbrev pub IsEligible : PromoAudience → List ℕ → ℕ → Option ℕ → ℕ → Table Subscription → Type 0
IsEligible all plan_ids user_id plan_id now subs = Unit
IsEligible by_plan plan_ids user_id plan_id now subs =
    (plan : ℕ) × (plan_id ≡ some plan) × Memᴰ plan plan_ids
IsEligible no_subscription plan_ids user_id plan_id now subs = ¬ (OwnsLive user_id now subs)
IsEligible has_subscription plan_ids user_id plan_id now subs = OwnsLive user_id now subs

-- What a code applies to.
abbrev pub AppliesTo : PromoAppliesTo → OrderType → Type 0
AppliesTo any order_type = Unit
AppliesTo new_purchase order_type = order_type ≡ plan_purchase
AppliesTo renewal order_type = order_type ≡ subscription_renewal

outlives_iff :
    (t : Option ℕ) (now : ℕ) → (outlives t now ≡ true) ↔ ((end : ℕ) → t ≡ some end → now < end)
outlives_iff none now = (λ _ end e. absurd (ground arith), λ _. refl)
outlives_iff (some t) now = (λ h end e. ground arith, λ f. ground (arith, f t refl))

is_live_for_iff :
    (user_id now : ℕ) (s : Subscription) → (is_live_for user_id now s ≡ true) ↔ IsLive user_id now s
is_live_for_iff user_id now s = (
  λ h. (
    ground (arith, ==_iff s.user_id user_id),
    ground arith,
    (outlives_iff s.expires_at now).0 (ground arith),
  ),
  λ h. ground (arith, h.0, h.1, (outlives_iff s.expires_at now).1 h.2, ==_refl user_id),
)

has_live_iff :
    (user_id now : ℕ) (subs : Table Subscription)
    → (has_live user_id now subs ≡ true) ↔ OwnsLive user_id now subs
unfolding has_live
has_live_iff user_id now [] = (λ h. absurd (ground arith), λ (id, s, here, live). elim here [ ])
has_live_iff user_id now ((id, s) ∷ t) = (
  λ h. elim (Bool-cases (is_live_for user_id now s)) [
    | inl live ↦ (id, s, head refl, (is_live_for_iff user_id now s).0 live)
    | inr not_live ↦
        let (k, x, here, live) = (has_live_iff user_id now t).0 (ground arith) in
        (k, x, tail here, live)
  ],
  λ (k, x, here, live). elim here [
    | head e ↦
        let live_s = subst (IsLive user_id now) (ap (λ (r : ℕ × Subscription). r.1) e) live in
        ground (arith, (is_live_for_iff user_id now s).1 live_s)
    | tail there ↦ ground (arith, (has_live_iff user_id now t).1 (k, x, there, live))
  ],
)

contains_iff : (k : ℕ) (ks : List ℕ) → (contains k ks ≡ true) ↔ Memᴰ k ks
unfolding contains
contains_iff k [] = (λ h. absurd (ground arith), λ here. elim here [ ])
contains_iff k (j ∷ js) = (
  λ h. elim (Bool-cases (k == j)) [
    | inl same ↦ head ((==_iff k j).0 same)
    | inr other ↦ tail ((contains_iff k js).0 (ground arith))
  ],
  λ here. elim here [
    | head e ↦ ground (arith, ==_iff k j)
    | tail there ↦ ground (arith, (contains_iff k js).1 there)
  ],
)

pub count_for_user-count :
    (id user_id : ℕ) (as' : List PromoActivation)
    → count_for_user id user_id as'
      ≡ count (λ (a : PromoActivation). a.promo_code_id == id && a.user_id == user_id) as'
unfolding count_for_user count
count_for_user-count id user_id [] = refl
count_for_user-count id user_id (a ∷ rest) = ground (arith, count_for_user-count id user_id rest)

pub applies_iff :
    (p : PromoAppliesTo) (order_type : OrderType)
    → (applies p order_type ≡ true) ↔ AppliesTo p order_type
applies_iff any order_type = (λ _. tt, λ _. refl)
applies_iff new_purchase order_type = ground arith
applies_iff renewal order_type = ground arith

audience_iff :
    (a : PromoAudience) (plan_ids : List ℕ) (user_id : ℕ) (plan_id : Option ℕ) (now : ℕ)
    (subs : Table Subscription)
    → ((elim a [
      | all ↦ true
      | by_plan ↦ plan_allowed plan_id plan_ids
      | no_subscription ↦ not (has_live user_id now subs)
      | has_subscription ↦ has_live user_id now subs
    ])
        ≡ true)
      ↔ IsEligible a plan_ids user_id plan_id now subs
unfolding plan_allowed
audience_iff all plan_ids user_id plan_id now subs = (λ _. tt, λ _. refl)
audience_iff by_plan plan_ids user_id none now subs =
    (λ h. absurd (ground arith), λ (plan, e, m). absurd (ground arith))
audience_iff by_plan plan_ids user_id (some plan_id) now subs = (
  λ h. (plan_id, refl, (contains_iff plan_id plan_ids).0 h),
  λ (plan, e, m). (contains_iff plan_id plan_ids).1 (cast (some-injective plan_id plan e) m),
)
audience_iff no_subscription plan_ids user_id plan_id now subs = (
  λ h owns. ground (arith, (has_live_iff user_id now subs).1 owns),
  λ none_live. elim (Bool-cases (has_live user_id now subs)) [
    | inl live ↦ absurd (none_live ((has_live_iff user_id now subs).0 live))
    | inr not_live ↦ ground arith
  ],
)
audience_iff has_subscription plan_ids user_id plan_id now subs = has_live_iff user_id now subs

pub check_audience_iff :
    (p : PromoCode) (user_id : ℕ) (plan_id : Option ℕ) (now : ℕ) (subs : Table Subscription)
    → (check_audience p user_id plan_id now subs ≡ true)
      ↔ IsEligible p.audience p.plan_ids user_id plan_id now subs
unfolding check_audience
check_audience_iff p user_id plan_id now subs =
    audience_iff p.audience p.plan_ids user_id plan_id now subs
