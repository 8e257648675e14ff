-- ===== src/Billing/Targets.antt =====
-- The subscription that a purchase extends is one of the user's.
use vpn_control_api.Base.{
  ℕ, ◌≡◌, ◌&&◌, Option, none, some, [], ◌∷◌, ◌==◌, arith, ==_iff, ==_refl, Option-cases, Bool-cases,
  inl, inr, is_id,
}
use vpn_control_api.Base.Table.{Table, lookup, Distinct}
use vpn_control_api.Store.{Subscription, PaymentOrder}
use vpn_control_api.Billing.Subscriptions.{
  find_active_subscription_for_plan, get_latest_for_user, expires_later, expiry_of, choose_target,
  Target, owned_target, renewal_target, same_plan_target, latest_target,
}

find_active-lookup :
    (user_id plan_id : ℕ) (t : Table Subscription) {id : ℕ} {s : Subscription}
    → Distinct t
    → find_active_subscription_for_plan user_id plan_id t ≡ some (id, s)
    → (lookup id t ≡ some s) × (s.user_id ≡ user_id)
unfolding find_active_subscription_for_plan lookup
find_active-lookup user_id plan_id [] distinct e = ground arith
find_active-lookup user_id plan_id ((i, x) ∷ t) {id} {s} (fresh, distinct) e =
    elim (Bool-cases (x.user_id == user_id && (x.is_active && is_id x.plan_id plan_id))) [
      | inl here ↦ ground (arith, ==_iff x.user_id user_id, ==_refl i)
      | inr there ↦
          ground
            (arith, ==_iff id i, find_active-lookup user_id plan_id t {id = id} {s = s} distinct)
    ]

get_latest-lookup :
    (user_id : ℕ) (t : Table Subscription) {id : ℕ} {s : Subscription}
    → Distinct t
    → get_latest_for_user user_id t ≡ some (id, s)
    → (lookup id t ≡ some s) × (s.user_id ≡ user_id)
unfolding get_latest_for_user lookup
get_latest-lookup user_id [] distinct e = ground arith
get_latest-lookup user_id ((i, x) ∷ t) {id} {s} (fresh, distinct) e =
    elim (Bool-cases (
      x.user_id == user_id
      && expires_later x.expires_at (expiry_of (get_latest_for_user user_id t)))) [
        | inl here ↦ ground (arith, ==_iff x.user_id user_id, ==_refl i)
        | inr there ↦
            ground (arith, ==_iff id i, get_latest-lookup user_id t {id = id} {s = s} distinct)
      ]

-- A target is a subscription of the user in the table.
unfoldable pub IsOwned : ℕ → Table Subscription → Target → Type 0
IsOwned user_id subs t = (lookup t.id subs ≡ some t.sub) × (t.sub.user_id ≡ user_id)

owned_target-IsOwned :
    (user_id plan_id id : ℕ) (subs : Table Subscription) {t : Target}
    → owned_target user_id plan_id id (lookup id subs) ≡ some t
    → IsOwned user_id subs t
unfolding IsOwned
owned_target-IsOwned user_id plan_id id subs e = elim (Option-cases (lookup id subs)) [
  | inl missing ↦ ground arith
  | inr (s, found) ↦ ground (arith, ==_iff s.user_id user_id)
]

renewal_target-IsOwned :
    (user_id plan_id : ℕ) (sub_id : Option ℕ) (subs : Table Subscription) {t : Target}
    → renewal_target user_id plan_id sub_id subs ≡ some t
    → IsOwned user_id subs t
renewal_target-IsOwned user_id plan_id none subs e = ground arith
renewal_target-IsOwned user_id plan_id (some id) subs e =
    owned_target-IsOwned user_id plan_id id subs e

same_plan_target-IsOwned :
    (user_id plan_id : ℕ) (subs : Table Subscription) {t : Target}
    → Distinct subs
    → same_plan_target (find_active_subscription_for_plan user_id plan_id subs) ≡ some t
    → IsOwned user_id subs t
unfolding IsOwned
same_plan_target-IsOwned user_id plan_id subs distinct e =
    elim (Option-cases (find_active_subscription_for_plan user_id plan_id subs)) [
      | inl missing ↦ ground arith
      | inr ((id, s), found) ↦
          ground (arith, find_active-lookup user_id plan_id subs {id = id} {s = s} distinct found)
    ]

latest_target-IsOwned :
    (user_id plan_id : ℕ) (subs : Table Subscription) {t : Target}
    → Distinct subs
    → latest_target plan_id (get_latest_for_user user_id subs) ≡ some t
    → IsOwned user_id subs t
unfolding IsOwned
latest_target-IsOwned user_id plan_id subs distinct e =
    elim (Option-cases (get_latest_for_user user_id subs)) [
      | inl missing ↦ ground arith
      | inr ((id, s), found) ↦
          ground (arith, get_latest-lookup user_id subs {id = id} {s = s} distinct found)
    ]

pub choose_target-IsOwned :
    (user_id plan_id : ℕ) (order : PaymentOrder) (subs : Table Subscription) {t : Target}
    → Distinct subs
    → choose_target user_id plan_id order subs ≡ some t
    → IsOwned user_id subs t
unfolding choose_target
choose_target-IsOwned user_id plan_id order subs {t} distinct e = ground (
  arith,
  renewal_target-IsOwned user_id plan_id order.subscription_id subs {t = t},
  same_plan_target-IsOwned user_id plan_id subs {t = t} distinct,
  latest_target-IsOwned user_id plan_id subs {t = t} distinct,
)
