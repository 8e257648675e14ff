-- ===== src/Billing/Orders.antt =====
-- An order keeps its external identifier and its amount through every step of a fulfilment.
use vpn_control_api.Base.{
  ℕ, ◌≡◌, refl, ◌∙◌, ℤ, pos, ltb_ℤ, Bool, true, false, not, ◌&&◌, Option, none, some, [], ◌∷◌, ltb,
  ◌==◌, if◌then◌else◌, arith, inl, inr, ◌+ℤ◌, ◌+◌, if_both, option_split, Bool-cases,
}
use vpn_control_api.Base.Table.{Table, lookup, modify}
use vpn_control_api.Store.{Db, Subscription, PaymentOrder, Plan, done, session, ◌then_run◌}
use vpn_control_api.Promo.Service.{record_activation}
use vpn_control_api.Billing.Subscriptions.{
  months_or_one, grant_subscription, activate, create_subscription, days, period_days,
  choose_target, link_subscription,
}
use vpn_control_api.Billing.Purchase.{
  post, auto_purchase, fulfill_device_slots, add_slots, not_covered,
}
use vpn_control_api.Billing.Fulfillment.{
  Payment, activation_of, record_promo_activation, purchase_plan, deliver, receive, update_order,
  mark_paid, fee_of_payment, is_device_slots,
}
use vpn_control_api.Billing.Entry.{get_by_external_id}

pub get_by_external_id-modify :
    (ext k id : ℕ) (f : PaymentOrder → PaymentOrder) (t : Table PaymentOrder) {o : PaymentOrder}
    → ((x : PaymentOrder) → (f x).external_id ≡ x.external_id)
    → get_by_external_id ext t ≡ some (id, o)
    → get_by_external_id ext (modify k f t) ≡ some (id, if k == id then f o else o)
unfolding get_by_external_id modify
get_by_external_id-modify ext k id f [] keeps e = ground arith
get_by_external_id-modify ext k id f ((i, x) ∷ t) {o} keeps e =
    elim (Bool-cases (x.external_id == ext)) [
      | inl here ↦ elim (Bool-cases (k == i)) [
        | inl same ↦ ground (arith, keeps x)
        | inr other ↦ ground (arith, keeps x)
      ]
      | inr there ↦ elim (Bool-cases (k == i)) [
        | inl same ↦ ground (arith, keeps x, get_by_external_id-modify ext k id f t {o = o} keeps)
        | inr other ↦ ground (arith, keeps x, get_by_external_id-modify ext k id f t {o = o} keeps)
      ]
    ]

-- The order with an external identifier is the given one, with the given amount.
unfoldable pub HasOrder : ℕ → ℕ → ℤ → Db → Type 0
HasOrder ext id amount db =
    (o : PaymentOrder) × (get_by_external_id ext db.orders ≡ some (id, o)) × (o.amount_rub ≡ amount)

module _ (ext id : ℕ) (amount : ℤ) where
  frame-HasOrder :
      (a b : Db) → b.orders ≡ a.orders → HasOrder ext id amount a → HasOrder ext id amount b
  unfolding HasOrder
  frame-HasOrder a b same (o, found, e) = (o, ground arith, e)

  update_order-HasOrder :
      (k : ℕ) (f : PaymentOrder → PaymentOrder) (db : Db)
      → ((x : PaymentOrder) → (f x).external_id ≡ x.external_id)
      → ((x : PaymentOrder) → (f x).amount_rub ≡ x.amount_rub)
      → HasOrder ext id amount db
      → HasOrder ext id amount (update_order k f db)
  unfolding HasOrder
  update_order-HasOrder k f db keeps keeps_amount (o, found, e) = (
    (if k == id then f o else o),
    get_by_external_id-modify ext k id f db.orders keeps found,
    if_both (λ (x : PaymentOrder). x.amount_rub ≡ amount) (k == id) (keeps_amount o ∙ e) e,
  )

  activate-HasOrder :
      (sub_id : ℕ) (db : Db)
      → HasOrder ext id amount db
      → HasOrder ext id amount (session (activate sub_id db))
  unfolding activate
  activate-HasOrder sub_id db h =
      option_split (λ r. HasOrder ext id amount (session r)) (lookup sub_id db.subscriptions)
        (λ missing. h) λ sub found. frame-HasOrder db _ refl h

  created-HasOrder :
      (new_id : ℕ) (sub : Subscription) (order_id : ℕ) (max_devices : ℤ) (db : Db)
      → HasOrder ext id amount db
      → HasOrder ext id amount (
          session (
            create_subscription new_id sub max_devices db
            then_run (λ db'. done (link_subscription order_id new_id db'))))
  unfolding create_subscription
  created-HasOrder new_id sub order_id max_devices db h =
      if_both
        (λ r.
          HasOrder ext id amount
            (session (r then_run (λ db'. done (link_subscription order_id new_id db')))))
        (ltb_ℤ (pos 0) max_devices && not (ltb_ℤ (pos 100) max_devices))
        (update_order-HasOrder order_id (λ o. record o { subscription_id = some new_id }) _
          (λ x. refl) (λ x. refl) (frame-HasOrder db _ refl h))
        h

  grant_subscription-HasOrder :
      (new_id user_id plan_id : ℕ) (plan : Plan) (order_id : ℕ) (order : PaymentOrder) (now : ℕ)
      (db : Db)
      → HasOrder ext id amount db
      → HasOrder ext id amount
          (session (grant_subscription new_id user_id plan_id plan order_id order now db))
  unfolding grant_subscription
  grant_subscription-HasOrder new_id user_id plan_id plan order_id order now db h =
      option_split (λ r. HasOrder ext id amount (session r))
        (choose_target user_id plan_id order db.subscriptions)
        (λ missing.
          created-HasOrder new_id
            (record {
              user_id = user_id;
              plan_id = some plan_id;
              is_active = true;
              expires_at = some (now + days (period_days order.period_months));
              paid_device_slots = order.device_slots_qty;
              max_devices = none;
              period_months = months_or_one order.period_months;
            })
            order_id (pos plan.included_devices +ℤ order.device_slots_qty) db h)
        λ t found. activate-HasOrder t.id _ (
          update_order-HasOrder order_id (λ o. record o { subscription_id = some t.id }) _
            (λ x. refl) (λ x. refl) (frame-HasOrder db _ refl h))

  not_covered-HasOrder :
      (strict : Bool) (db : Db)
      → HasOrder ext id amount db
      → HasOrder ext id amount (session (not_covered strict db))
  not_covered-HasOrder true db h = h
  not_covered-HasOrder false db h = h

  auto_purchase-HasOrder :
      (new_id user_id plan_id : ℕ) (plan : Plan) (order_id : ℕ) (order : PaymentOrder) (now : ℕ)
      (strict : Bool) (db : Db)
      → HasOrder ext id amount db
      → HasOrder ext id amount
          (session (auto_purchase new_id user_id plan_id plan order_id order now strict db))
  unfolding auto_purchase post
  auto_purchase-HasOrder new_id user_id plan_id plan order_id order now strict db h =
      option_split (λ r. HasOrder ext id amount (session r)) (lookup user_id db.users)
        (λ missing. not_covered-HasOrder strict db h)
        λ u found.
          if_both (λ r. HasOrder ext id amount (session r)) (ltb_ℤ u.balance order.amount_rub)
            (not_covered-HasOrder strict db h)
            (grant_subscription-HasOrder new_id user_id plan_id plan order_id order now _
              (frame-HasOrder db _ refl h))

  add_slots-HasOrder :
      (sub_id : Option ℕ) (qty : ℤ) (db : Db)
      → HasOrder ext id amount db
      → HasOrder ext id amount (add_slots sub_id qty db)
  add_slots-HasOrder none qty db h = h
  add_slots-HasOrder (some sub_id) qty db h = frame-HasOrder db _ refl h

  fulfill_device_slots-HasOrder :
      (user_id order_id : ℕ) (order : PaymentOrder) (strict : Bool) (db : Db)
      → HasOrder ext id amount db
      → HasOrder ext id amount (session (fulfill_device_slots user_id order_id order strict db))
  unfolding fulfill_device_slots post
  fulfill_device_slots-HasOrder user_id order_id order strict db h =
      option_split (λ r. HasOrder ext id amount (session r)) (lookup user_id db.users)
        (λ missing. not_covered-HasOrder strict db h)
        λ u found.
          if_both (λ r. HasOrder ext id amount (session r)) (ltb_ℤ u.balance order.amount_rub)
            (not_covered-HasOrder strict db h)
            (add_slots-HasOrder order.subscription_id order.device_slots_qty _
              (frame-HasOrder db _ refl h))

  purchase_plan-HasOrder :
      (user_id : ℕ) (p : Payment) (order_id : ℕ) (order : PaymentOrder) (plan_id : Option ℕ)
      (db : Db)
      → HasOrder ext id amount db
      → HasOrder ext id amount (session (purchase_plan user_id p order_id order plan_id db))
  purchase_plan-HasOrder user_id p order_id order none db h = h
  purchase_plan-HasOrder user_id p order_id order (some plan_id) db h =
      option_split (λ r. HasOrder ext id amount (session r)) (lookup plan_id db.plans)
        (λ missing. h)
        λ plan found.
          if_both (λ r. HasOrder ext id amount (session r)) (plan.is_active && ltb 0 plan.price_rub)
            (auto_purchase-HasOrder p.new_id user_id plan_id plan order_id order p.now false db h) h

  pub deliver-HasOrder :
      (user_id : ℕ) (p : Payment) (order_id : ℕ) (order : PaymentOrder) (db : Db)
      → HasOrder ext id amount db
      → HasOrder ext id amount (session (deliver user_id p order_id order db))
  unfolding deliver
  deliver-HasOrder user_id p order_id order db h =
      if_both (λ r. HasOrder ext id amount (session r)) (is_device_slots order.order_type)
        (fulfill_device_slots-HasOrder user_id order_id order false db h)
        (purchase_plan-HasOrder user_id p order_id order order.plan_id db h)

  activation_of-HasOrder :
      (order_id : ℕ) (order : PaymentOrder) (promo_id discount : Option ℕ) (db : Db)
      → HasOrder ext id amount db
      → HasOrder ext id amount (activation_of order_id order promo_id discount db)
  unfolding record_activation
  activation_of-HasOrder order_id order (some promo_id) (some discount) db h =
      frame-HasOrder db _ refl h
  activation_of-HasOrder order_id order (some promo_id) none db h = h
  activation_of-HasOrder order_id order none discount db h = h

  pub receive-HasOrder :
      (user_id : ℕ) (old : ℤ) (p : Payment) (order_id : ℕ) (order : PaymentOrder) (db : Db)
      → HasOrder ext id amount db
      → HasOrder ext id amount (receive user_id old p order_id order db)
  unfolding receive record_promo_activation post
  receive-HasOrder user_id old p order_id order db h =
      activation_of-HasOrder order_id order order.promo_code_id order.discount_rub _ (
        frame-HasOrder
          (update_order order_id (mark_paid p.now (fee_of_payment p order.amount_rub db)) db) _ refl
          (update_order-HasOrder order_id (mark_paid p.now (fee_of_payment p order.amount_rub db))
            db (λ x. refl) (λ x. refl) h))
