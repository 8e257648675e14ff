-- ===== src/Billing/Payments.antt =====
-- What a payment does to the balances: the amount comes in, and what the order buys takes it off again.
use vpn_control_api.Base.{
  ℕ, ◌≡◌, refl, ℤ, pos, ◌+ℤ◌, ◌-ℤ◌, ◌≤ℤ◌, ltb_ℤ, Bool, false, ◌&&◌, ◌||◌, Option, none, some, ltb,
  ◌==◌, if◌then◌else◌, arith, int_laws, ==_refl, ==_iff, Option-cases, inl, inr, ap, sym, ◌∙◌,
  +ℤ_parts,
}
use vpn_control_api.Base.Table.{lookup, modify, lookup-modify}
use vpn_control_api.Store.{
  Db, User, Plan, PaymentOrder, payment, purchase, device_slot_purchase, session,
}
use vpn_control_api.Promo.Service.{record_activation}
use vpn_control_api.Billing.Subscriptions.{grant_subscription, activate, create_subscription}
use vpn_control_api.Billing.Purchase.{
  post, set_balance, auto_purchase, add_slots, fulfill_device_slots,
}
use vpn_control_api.Billing.Fulfillment.{
  Payment, receive, deliver, purchase_plan, record_promo_activation, activation_of, is_device_slots,
}
use vpn_control_api.Billing.Refunds.{
  balance_of, balance_of-frame, debit-balance_of, post-balance_of,
}

pub grant_subscription-users :
    (new_id user_id plan_id : ℕ) (plan : Plan) (order_id : ℕ) (order : PaymentOrder) (now : ℕ)
    (db : Db)
    → (session (grant_subscription new_id user_id plan_id plan order_id order now db)).users
      ≡ db.users
unfolding grant_subscription activate create_subscription
grant_subscription-users new_id user_id plan_id plan order_id order now db = ground arith

pub auto_purchase-covered :
    (new_id user_id plan_id : ℕ) (plan : Plan) (order_id : ℕ) (order : PaymentOrder) (now : ℕ)
    (strict : Bool) (db : Db) {v : User}
    → lookup user_id db.users ≡ some v
    → ltb_ℤ v.balance order.amount_rub ≡ false
    → auto_purchase new_id user_id plan_id plan order_id order now strict db
      ≡ grant_subscription new_id user_id plan_id plan order_id order now
          (post user_id v.balance (pos 0 -ℤ order.amount_rub) purchase (some order_id) db)
unfolding auto_purchase
auto_purchase-covered new_id user_id plan_id plan order_id order now strict db {v} found covered =
    ground arith

auto_purchase-balance_of :
    (new_id user_id plan_id : ℕ) (plan : Plan) (order_id : ℕ) (order : PaymentOrder) (now id : ℕ)
    (db : Db) {v : User}
    → lookup user_id db.users ≡ some v
    → ltb_ℤ v.balance order.amount_rub ≡ false
    → balance_of id
        (session (auto_purchase new_id user_id plan_id plan order_id order now false db))
      ≡ (if id == user_id then some (v.balance -ℤ order.amount_rub) else balance_of id db)
auto_purchase-balance_of new_id user_id plan_id plan order_id order now id db {v} found covered =
    let posted = post user_id v.balance (pos 0 -ℤ order.amount_rub) purchase (some order_id) db in
    ap (λ r. balance_of id (session r))
      (auto_purchase-covered new_id user_id plan_id plan order_id order now false db found covered)
    ∙ balance_of-frame id posted _
        (grant_subscription-users new_id user_id plan_id plan order_id order now posted)
    ∙ debit-balance_of user_id order.amount_rub purchase (some order_id) db id found

add_slots-users :
    (sub_id : Option ℕ) (qty : ℤ) (db : Db) → (add_slots sub_id qty db).users ≡ db.users
add_slots-users sub_id qty db = ground arith

fulfill_device_slots-covered :
    (user_id order_id : ℕ) (order : PaymentOrder) (db : Db) {v : User}
    → lookup user_id db.users ≡ some v
    → ltb_ℤ v.balance order.amount_rub ≡ false
    → session (fulfill_device_slots user_id order_id order false db)
      ≡ add_slots order.subscription_id order.device_slots_qty (
          post user_id v.balance
            (pos 0 -ℤ order.amount_rub)
            device_slot_purchase
            (some order_id)
            db)
unfolding fulfill_device_slots
fulfill_device_slots-covered user_id order_id order db {v} found covered = ground arith

fulfill_device_slots-balance_of :
    (user_id order_id : ℕ) (order : PaymentOrder) (id : ℕ) (db : Db) {v : User}
    → lookup user_id db.users ≡ some v
    → ltb_ℤ v.balance order.amount_rub ≡ false
    → balance_of id (session (fulfill_device_slots user_id order_id order false db))
      ≡ (if id == user_id then some (v.balance -ℤ order.amount_rub) else balance_of id db)
fulfill_device_slots-balance_of user_id order_id order id db {v} found covered =
    let posted =
      post user_id v.balance (pos 0 -ℤ order.amount_rub) device_slot_purchase (some order_id) db in
    ap (balance_of id) (fulfill_device_slots-covered user_id order_id order db found covered)
    ∙ balance_of-frame id posted _
        (add_slots-users order.subscription_id order.device_slots_qty posted)
    ∙ debit-balance_of user_id order.amount_rub device_slot_purchase (some order_id) db id found

activation_of-users :
    (order_id : ℕ) (order : PaymentOrder) (promo_id discount : Option ℕ) (db : Db)
    → (activation_of order_id order promo_id discount db).users ≡ db.users
unfolding record_activation
activation_of-users order_id order promo_id discount db = ground arith

post-users :
    (user_id : ℕ) (old amount : ℤ) (order_id : Option ℕ) (db : Db)
    → (post user_id old amount payment order_id db).users
      ≡ modify user_id (set_balance (old +ℤ amount)) db.users
unfolding post
post-users user_id old amount order_id db = refl

receive-users :
    (p : Payment) (order_id : ℕ) (order : PaymentOrder) (old : ℤ) (db : Db)
    → (receive order.user_id old p order_id order db).users
      ≡ modify order.user_id (set_balance (old +ℤ order.amount_rub)) db.users
unfolding receive record_promo_activation post
receive-users p order_id order old db =
    activation_of-users order_id order order.promo_code_id order.discount_rub _

-- Whether an order buys something: device slots, or a plan that is active and has a price.
abbrev pub is_on_sale : Option Plan → Bool
is_on_sale none = false
is_on_sale (some plan) = plan.is_active && ltb 0 plan.price_rub

abbrev pub plan_of : Option ℕ → Db → Option Plan
plan_of none db = none
plan_of (some plan_id) db = lookup plan_id db.plans

purchase_plan-balance_of :
    (user_id : ℕ) (p : Payment) (order_id : ℕ) (order : PaymentOrder) (plan_id : Option ℕ) (id : ℕ)
    (db : Db) {v : User}
    → lookup user_id db.users ≡ some v
    → ltb_ℤ v.balance order.amount_rub ≡ false
    → balance_of id (session (purchase_plan user_id p order_id order plan_id db)) ≡ (
        if is_on_sale (plan_of plan_id db)
        then (if id == user_id then some (v.balance -ℤ order.amount_rub) else balance_of id db)
        else balance_of id db)
purchase_plan-balance_of user_id p order_id order none id db found covered = refl
purchase_plan-balance_of user_id p order_id order (some plan_id) id db {v} found covered =
    elim (Option-cases (lookup plan_id db.plans)) [
      | inl missing ↦ ground arith
      | inr (plan, here) ↦ ground (
        arith,
        auto_purchase-balance_of p.new_id user_id plan_id plan order_id order p.now id db found
            covered,
      )
    ]

receive-plan_of :
    (p : Payment) (order_id : ℕ) (order : PaymentOrder) (old : ℤ) (plan_id : Option ℕ) (db : Db)
    → plan_of plan_id (receive order.user_id old p order_id order db) ≡ plan_of plan_id db
unfolding receive record_promo_activation post record_activation
receive-plan_of p order_id order old plan_id db = ground arith

receive-lookup :
    (p : Payment) (order_id : ℕ) (order : PaymentOrder) (db : Db) {u : User}
    → lookup order.user_id db.users ≡ some u
    → lookup order.user_id (receive order.user_id u.balance p order_id order db).users
      ≡ some (set_balance (u.balance +ℤ order.amount_rub) u)
receive-lookup p order_id order db {u} found =
    ap (lookup order.user_id) (receive-users p order_id order u.balance db)
    ∙ ground (
      arith,
      ==_refl order.user_id,
      lookup-modify order.user_id order.user_id (set_balance (u.balance +ℤ order.amount_rub))
          db.users,
    )

receive-balance_of :
    (p : Payment) (order_id : ℕ) (order : PaymentOrder) (id : ℕ) (db : Db) {u : User}
    → lookup order.user_id db.users ≡ some u
    → balance_of id (receive order.user_id u.balance p order_id order db)
      ≡ (if id == order.user_id then some (u.balance +ℤ order.amount_rub) else balance_of id db)
receive-balance_of p order_id order id db {u} found =
    balance_of-frame id (post order.user_id u.balance order.amount_rub payment (some order_id) db) _
      (receive-users p order_id order u.balance db
        ∙ sym (post-users order.user_id u.balance order.amount_rub (some order_id) db))
    ∙ post-balance_of order.user_id order.amount_rub payment (some order_id) db id found

add_then_sub : (a b : ℤ) → a +ℤ b -ℤ b ≡ a
add_then_sub a b = omega int_laws

covers_itself : (a b : ℤ) → pos 0 ≤ℤ a → ltb_ℤ (a +ℤ b) b ≡ false
covers_itself a b h = ground (arith, +ℤ_parts a b)

own-balance_of :
    (user_id id : ℕ) (db : Db) {u : User}
    → lookup user_id db.users ≡ some u
    → (if id == user_id then some u.balance else balance_of id db) ≡ balance_of id db
unfolding balance_of
own-balance_of user_id id db {u} found = ground (arith, ==_iff id user_id)

-- A paid order of a known user whose balance is not negative: where it buys device slots, or a plan that
-- is on sale, every balance is, in the session that the delivery leaves, what it was before the payment.
-- Where it buys nothing, the amount of the order stays on the user's balance, and no other changes.
pub deliver_what_is_paid :
    (p : Payment) (order_id : ℕ) (order : PaymentOrder) (id : ℕ) (db : Db) {u : User}
    → lookup order.user_id db.users ≡ some u
    → pos 0 ≤ℤ u.balance
    → balance_of id (
        session (
          deliver order.user_id p order_id order
            (receive order.user_id u.balance p order_id order db)))
      ≡ (if is_device_slots order.order_type || is_on_sale (plan_of order.plan_id db)
          then balance_of id db
          else if id == order.user_id
          then some (u.balance +ℤ order.amount_rub)
          else balance_of id db)
unfolding deliver
deliver_what_is_paid p order_id order id db {u} found nonneg =
    let received = receive order.user_id u.balance p order_id order db in
    let here = receive-lookup p order_id order db found in
    let covered = covers_itself u.balance order.amount_rub nonneg in
    ground (
      arith,
      fulfill_device_slots-balance_of order.user_id order_id order id received here covered,
      purchase_plan-balance_of order.user_id p order_id order order.plan_id id received here
          covered,
      receive-plan_of p order_id order u.balance order.plan_id db,
      receive-balance_of p order_id order id db found,
      add_then_sub u.balance order.amount_rub,
      own-balance_of order.user_id id db found,
    )
