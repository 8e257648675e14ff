-- ===== src/Billing/PlanOrders.antt =====
-- Orders of a plan that are paid from the balance.
use mathlib.Core.Path.{subst}
use vpn_control_api.Base.{
  ℕ, ◌+◌, ◌≡◌, refl, sym, ℤ, pos, ◌+ℤ◌, ◌-ℤ◌, ◌<ℤ◌, ◌≤ℤ◌, ltb_ℤ, true, false, none, some, ◌==◌,
  if◌then◌else◌, arith, ==_refl, Bool-cases, inl, inr, ◌⊎◌, ap, ◌∙◌,
}
use vpn_control_api.Base.Table.{lookup, modify, lookup-modify, lookup-append, Distinct}
use vpn_control_api.Store.{
  Db, User, Plan, PaymentOrder, purchase, insufficient_balance, done, raised, session, get_session,
  ◌then_run◌,
}
use vpn_control_api.Promo.Service.{record_activation}
use vpn_control_api.Billing.Subscriptions.{days, period_days, grant_subscription}
use vpn_control_api.Billing.Purchase.{post, auto_purchase}
use vpn_control_api.Billing.Fulfillment.{update_order, record_promo_activation}
use vpn_control_api.Billing.Refunds.{balance_of, balance_of-frame, debit-balance_of}
use vpn_control_api.Billing.Grants.{IsGranted, grant_subscription-IsGranted}
use vpn_control_api.Billing.Extensions.{LastsUntil}
use vpn_control_api.Billing.Payments.{auto_purchase-covered, grant_subscription-users}
use vpn_control_api.Billing.Checkout.{Fresh, insert_order, mark_settled}
use vpn_control_api.Billing.PlanCheckout.{PlanOrder, plan_order_row, create_balance_plan_order}

-- The database in which the subscription is granted: the order is opened and the balance debited.
abbrev debited : Fresh → PlanOrder → ℤ → Db → Db
debited fresh request old db =
    post request.user_id old (pos 0 -ℤ request.amount_rub) purchase (some fresh.order_id)
      (insert_order fresh.order_id (plan_order_row fresh request) db)

-- The database after the order, where the grant left the given one.
abbrev finished : Fresh → PlanOrder → ℕ → Db → Db
finished fresh request now granted =
    record_promo_activation fresh.order_id (plan_order_row fresh request)
      (update_order fresh.order_id (mark_settled now) granted)

plan_order-done :
    (fresh : Fresh) (plan : Plan) (request : PlanOrder) (now : ℕ) (db granted : Db) {u : User}
    → lookup request.user_id db.users ≡ some u
    → ltb_ℤ u.balance request.amount_rub ≡ false
    → grant_subscription fresh.subscription_id request.user_id request.plan_id plan fresh.order_id
        (plan_order_row fresh request)
        now
        (debited fresh request u.balance db)
      ≡ done granted
    → create_balance_plan_order fresh plan request now db
      ≡ done (finished fresh request now granted)
unfolding create_balance_plan_order
plan_order-done fresh plan request now db granted {u} known covered grants =
    ap (λ r. r then_run (λ after. done (finished fresh request now after)))
      (auto_purchase-covered fresh.subscription_id request.user_id request.plan_id plan
          fresh.order_id (plan_order_row fresh request) now true
          (insert_order fresh.order_id (plan_order_row fresh request) db) known covered
        ∙ grants)

plan_order-refused :
    (fresh : Fresh) (plan : Plan) (request : PlanOrder) (now : ℕ) (db : Db) {u : User}
    → lookup request.user_id db.users ≡ some u
    → ltb_ℤ u.balance request.amount_rub ≡ true
    → create_balance_plan_order fresh plan request now db
      ≡ raised insufficient_balance (insert_order fresh.order_id (plan_order_row fresh request) db)
unfolding create_balance_plan_order auto_purchase
plan_order-refused fresh plan request now db {u} known short = ground arith

finished-frame :
    (fresh : Fresh) (request : PlanOrder) (now : ℕ) (db : Db)
    → ((finished fresh request now db).users ≡ db.users)
      × ((finished fresh request now db).subscriptions ≡ db.subscriptions)
      × ((finished fresh request now db).orders
          ≡ modify fresh.order_id (mark_settled now) db.orders)
unfolding record_promo_activation record_activation
finished-frame fresh request now db = ground arith

finished-balance_of :
    (fresh : Fresh) (plan : Plan) (request : PlanOrder) (now id : ℕ) (db granted : Db) {u : User}
    → lookup request.user_id db.users ≡ some u
    → grant_subscription fresh.subscription_id request.user_id request.plan_id plan fresh.order_id
        (plan_order_row fresh request)
        now
        (debited fresh request u.balance db)
      ≡ done granted
    → balance_of id (finished fresh request now granted)
      ≡ (if id == request.user_id then some (u.balance -ℤ request.amount_rub) else balance_of id db)
finished-balance_of fresh plan request now id db granted {u} known grants =
    balance_of-frame id (debited fresh request u.balance db) _ (
      (finished-frame fresh request now granted).0
      ∙ sym (ap (λ r. (session r).users) grants)
      ∙ grant_subscription-users fresh.subscription_id request.user_id request.plan_id plan
          fresh.order_id (plan_order_row fresh request) now (debited fresh request u.balance db))
    ∙ debit-balance_of request.user_id request.amount_rub purchase (some fresh.order_id)
        (insert_order fresh.order_id (plan_order_row fresh request) db) id known
    ∙ ap (λ b. if id == request.user_id then some (u.balance -ℤ request.amount_rub) else b)
        (balance_of-frame id db (insert_order fresh.order_id (plan_order_row fresh request) db)
          refl)

opened-order :
    (fresh : Fresh) (request : PlanOrder) (old : ℤ) (db : Db)
    → lookup fresh.order_id db.orders ≡ none
    → lookup fresh.order_id (debited fresh request old db).orders
      ≡ some (plan_order_row fresh request)
unfolding post
opened-order fresh request old db unused = ground (
  arith,
  ==_refl fresh.order_id,
  lookup-append fresh.order_id fresh.order_id (plan_order_row fresh request) db.orders,
)

finished-order :
    (fresh : Fresh) (request : PlanOrder) (now : ℕ) (granted : Db) {o : PaymentOrder}
    → lookup fresh.order_id granted.orders ≡ some o
    → lookup fresh.order_id (finished fresh request now granted).orders ≡ some (mark_settled now o)
finished-order fresh request now granted {o} found =
    ap (lookup fresh.order_id) (finished-frame fresh request now granted).2
    ∙ ground (
      arith,
      ==_refl fresh.order_id,
      lookup-modify fresh.order_id fresh.order_id (mark_settled now) granted.orders,
    )

-- What a completed plan order leaves.
pub record IsDelivered (fresh : Fresh) (request : PlanOrder) (now : ℕ) (old : ℤ) (db after : Db)
    : Type 0 where
  pub debit :
      (id : ℕ)
      → balance_of id after
        ≡ (if id == request.user_id then some (old -ℤ request.amount_rub) else balance_of id db)
  pub sub_id : ℕ
  pub lasts :
      LastsUntil request.user_id sub_id
        (now + days (period_days request.period_months))
        after.subscriptions
  pub stored :
      lookup fresh.order_id after.orders
      ≡ some (
          mark_settled now
            (record (plan_order_row fresh request) { subscription_id = some sub_id }))

plan_order-IsDelivered :
    (fresh : Fresh) (plan : Plan) (request : PlanOrder) (now : ℕ) (db : Db) {u : User}
    → lookup request.user_id db.users ≡ some u
    → ltb_ℤ u.balance request.amount_rub ≡ false
    → Distinct db.subscriptions
    → lookup fresh.subscription_id db.subscriptions ≡ none
    → lookup fresh.order_id db.orders ≡ none
    → pos 0 <ℤ pos plan.included_devices +ℤ request.extra_devices
    → pos plan.included_devices +ℤ request.extra_devices ≤ℤ pos 100
    → (after : Db) × (create_balance_plan_order fresh plan request now db ≡ done after)
      × IsDelivered fresh request now u.balance db after
unfolding post IsGranted
plan_order-IsDelivered fresh plan request now db {u} known covered distinct free_id unused least
      most =
    let (granted, grants, given) =
      grant_subscription-IsGranted fresh.subscription_id request.user_id request.plan_id plan
        fresh.order_id (plan_order_row fresh request) now (debited fresh request u.balance db)
        distinct free_id least most in
    (
      finished fresh request now granted,
      plan_order-done fresh plan request now db granted known covered grants,
      record {
        debit = λ i. finished-balance_of fresh plan request now i db granted known grants;
        sub_id = given.0;
        lasts =
            subst
              (LastsUntil request.user_id given.0 (now + days (period_days request.period_months)))
              (sym (finished-frame fresh request now granted).1) given.1;
        stored = finished-order fresh request now granted (
            given.2 (plan_order_row fresh request)
              (opened-order fresh request u.balance db unused));
      },
    )

-- A plan that a known user orders from the balance, under free identifiers for the order and for a new
-- subscription, where no two subscriptions share an identifier and the plan's devices and the ordered
-- slots are between 1 and 100: where the balance is below the amount, the call raises InsufficientBalance and the session
-- rolls back to what it was. Otherwise the balance covers the amount, the amount is taken off this balance and no other, the user has
-- an active subscription for at least the period from now, and the order is stored as completed, with
-- this subscription.
pub plan_order_all_or_nothing :
    (fresh : Fresh) (plan : Plan) (request : PlanOrder) (now : ℕ) (db : Db) {u : User}
    → lookup request.user_id db.users ≡ some u
    → Distinct db.subscriptions
    → lookup fresh.subscription_id db.subscriptions ≡ none
    → lookup fresh.order_id db.orders ≡ none
    → pos 0 <ℤ pos plan.included_devices +ℤ request.extra_devices
    → pos plan.included_devices +ℤ request.extra_devices ≤ℤ pos 100
    → ((u.balance <ℤ request.amount_rub)
        × (left : Db) × (create_balance_plan_order fresh plan request now db
            ≡ raised insufficient_balance left)
        × (get_session db (create_balance_plan_order fresh plan request now db) ≡ db))
      ⊎ ((request.amount_rub ≤ℤ u.balance)
          × (after : Db) × (create_balance_plan_order fresh plan request now db ≡ done after)
          × IsDelivered fresh request now u.balance db after)
unfolding get_session
plan_order_all_or_nothing fresh plan request now db {u} known distinct free_id unused least most =
    elim (Bool-cases (ltb_ℤ u.balance request.amount_rub)) [
      | inl short ↦ inl (
        ground arith,
        insert_order fresh.order_id (plan_order_row fresh request) db,
        plan_order-refused fresh plan request now db known short,
        ap (get_session db) (plan_order-refused fresh plan request now db known short),
      )
      | inr covered ↦
          let (after, ends, delivered) =
            plan_order-IsDelivered fresh plan request now db known covered distinct free_id unused
              least most in
          inr (ground arith, after, ends, delivered)
    ]
