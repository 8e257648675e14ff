-- ===== src/Billing/PlanCheckout.antt =====
-- services/billing/service.py: the plan orders that `create_order` settles at once, from the balance or
-- for free, with `_auto_purchase_free`. Logs, metrics and messages are left out.
use vpn_control_api.Base.{ℕ, ◌+◌, ℤ, pos, true, Option, none, some}
use vpn_control_api.Store.{
  Db, Plan, PaymentOrder, paid, balance, free, OrderType, Run, done, ◌then_run◌,
}
use vpn_control_api.Billing.Subscriptions.{
  days, link_subscription, update_subscription, create_subscription,
  find_active_subscription_for_plan,
}
use vpn_control_api.Billing.Purchase.{auto_purchase}
use vpn_control_api.Billing.Fulfillment.{update_order, record_promo_activation}
use vpn_control_api.Billing.Checkout.{Fresh, blank_order, insert_order, mark_settled}

-- What a plan order asks for, once `create_order` has priced it.
pub record PlanOrder : Type 0 where
  pub user_id : ℕ
  pub plan_id : ℕ
  pub order_type : OrderType
  pub subscription_id : Option ℕ
  pub amount_rub : ℤ
  pub extra_devices : ℤ
  pub period_months : ℕ
  pub promo_code_id : Option ℕ
  pub discount_rub : Option ℕ

abbrev pub plan_order_row : Fresh → PlanOrder → PaymentOrder
plan_order_row fresh request =
    record (blank_order request.user_id request.amount_rub balance fresh.external_id) {
      plan_id = some request.plan_id;
      status = paid;
      subscription_id = request.subscription_id;
      order_type = request.order_type;
      device_slots_qty = request.extra_devices;
      period_months = request.period_months;
      promo_code_id = request.promo_code_id;
      discount_rub = request.discount_rub;
    }

-- `_create_balance_plan_order`
unfoldable pub create_balance_plan_order : Fresh → Plan → PlanOrder → ℕ → Db → Run
create_balance_plan_order fresh plan request now db =
    let order = plan_order_row fresh request in
    auto_purchase fresh.subscription_id request.user_id request.plan_id plan fresh.order_id order
      now true (insert_order fresh.order_id order db)
    then_run (λ after. done (
        record_promo_activation fresh.order_id order
          (update_order fresh.order_id (mark_settled now) after)))

-- `existing.expires_at or now`
abbrev pub or_now : Option ℕ → ℕ → ℕ
or_now none now = now
or_now (some t) now = t

-- `_auto_purchase_free`
unfoldable pub auto_purchase_free : ℕ → ℕ → ℕ → Plan → ℕ → ℕ → Db → Run
unfolding create_subscription
auto_purchase_free new_id user_id plan_id plan order_id now db =
    elim (find_active_subscription_for_plan user_id plan_id db.subscriptions) [
      | some (id, existing) ↦ done (
          link_subscription order_id id (
            update_subscription id
              (λ s. record s {
                expires_at = some (or_now existing.expires_at now + days plan.duration_days);
                is_active = true;
              })
              db))
      | none ↦
          create_subscription new_id
            (record {
              user_id = user_id;
              plan_id = some plan_id;
              is_active = true;
              expires_at = some (now + days plan.duration_days);
              paid_device_slots = pos 0;
              max_devices = none;
              period_months = 1;
            })
            (pos plan.included_devices) db
          then_run (λ after. done (link_subscription order_id new_id after))
    ]

-- `_create_free_order`
unfoldable pub create_free_order : Fresh → ℕ → ℕ → Plan → ℕ → Db → Run
unfolding auto_purchase_free
create_free_order fresh user_id plan_id plan now db =
    auto_purchase_free fresh.subscription_id user_id plan_id plan fresh.order_id now (
      insert_order fresh.order_id
        (record (blank_order user_id (pos 0) free fresh.external_id) {
          plan_id = some plan_id;
          status = paid;
        })
        db)
    then_run (λ after. done (update_order fresh.order_id (mark_settled now) after))
