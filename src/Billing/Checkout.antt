-- ===== src/Billing/Checkout.antt =====
-- services/billing/service.py: the orders for a top-up and for device slots, which `create_order` hands
-- to helpers. Logs, metrics, descriptions
-- and payment links are left out. The payment systems are a parameter: what their `create_payment`
-- answers to an amount, the external identifier or nothing where it fails.
use vpn_control_api.Base.{
  ℕ, ◌+◌, ℤ, pos, ◌-ℤ◌, ◌*ℤ◌, ltb_ℤ, Bool, true, false, not, Option, none, some, ◌==◌,
  if◌then◌else◌,
}
use vpn_control_api.Base.Table.{lookup}
use vpn_control_api.Store.{
  Db, Plan, Subscription, PaymentOrder, pending, paid, completed, Provider, crypto, freekassa,
  platega, balance, plan_purchase, device_slots, top_up, order_not_found, plan_not_purchasable,
  provider_error, device_slot_limit_exceeded, Run, done, raised, ◌then_run◌, create,
}
use vpn_control_api.Billing.Subscriptions.{link_subscription}
use vpn_control_api.Billing.Purchase.{fulfill_device_slots}
use vpn_control_api.Billing.Fulfillment.{update_order}
use vpn_control_api.Billing.Entry.{is_stars}

-- `PROVIDERS`
abbrev pub is_registered : Provider → Bool
is_registered crypto = true
is_registered freekassa = true
is_registered platega = true
is_registered _ = false

-- The identifiers that a call makes up: of the order, of its external identifier, and of a
-- subscription.
pub record Fresh : Type 0 where
  pub order_id : ℕ
  pub external_id : ℕ
  pub subscription_id : ℕ

-- `OrderInternalCreate` with its defaults.
abbrev pub blank_order : ℕ → ℤ → Provider → ℕ → PaymentOrder
blank_order user_id amount_rub provider external_id = record {
  user_id = user_id;
  plan_id = none;
  amount_rub = amount_rub;
  provider = provider;
  status = pending;
  external_id = external_id;
  paid_at = none;
  completed_at = none;
  expires_at = none;
  subscription_id = none;
  order_type = plan_purchase;
  device_slots_qty = pos 0;
  period_months = 1;
  fee_rub = none;
  net_rub = none;
  promo_code_id = none;
  discount_rub = none;
}

abbrev pub insert_order : ℕ → PaymentOrder → Db → Db
insert_order order_id order db = record db { orders = create order_id order db.orders }

-- `OrderInternalUpdate(status="completed", paid_at=now, completed_at=now)`
abbrev pub mark_settled : ℕ → PaymentOrder → PaymentOrder
mark_settled now o = record o { status = completed; paid_at = some now; completed_at = some now }

-- An unpaid order that a payment system knows, or `ProviderError`.
abbrev pub place_order : Fresh → PaymentOrder → Option ℕ → Db → Run
place_order fresh order none db = raised provider_error db
place_order fresh order (some external_id) db =
    done (insert_order fresh.order_id (record order { external_id = external_id }) db)

module _ (create_payment : Provider → ℤ → Option ℕ) where
  -- The external identifier: made up for Stars, else the payment system's.
  unfoldable pub external_of : Fresh → Provider → ℤ → Option ℕ
  external_of fresh provider amount_rub =
      if is_stars provider
      then some fresh.external_id
      else if is_registered provider
      then create_payment provider amount_rub
      else none

  -- `_create_top_up_order`; `ttl` is the lifetime of an order, in seconds.
  unfoldable pub create_top_up_order : Fresh → ℕ → Provider → Option ℤ → ℕ → ℕ → Db → Run
  unfolding external_of
  create_top_up_order fresh user_id provider none now ttl db = raised plan_not_purchasable db
  create_top_up_order fresh user_id provider (some amount_rub) now ttl db =
      if not (ltb_ℤ (pos 0) amount_rub)
      then raised plan_not_purchasable db
      else place_order fresh
          (record (blank_order user_id amount_rub provider 0) {
            expires_at = some (now + ttl);
            order_type = top_up;
          })
          (external_of fresh provider amount_rub) db

-- `_create_balance_device_slot_order`
unfoldable pub create_balance_device_slot_order : Fresh → ℕ → ℕ → ℤ → ℤ → ℕ → Db → Run
create_balance_device_slot_order fresh user_id sub_id qty amount_rub now db =
    let order : PaymentOrder = record (blank_order user_id amount_rub balance fresh.external_id) {
      status = paid;
      subscription_id = some sub_id;
      order_type = device_slots;
      device_slots_qty = qty;
    } in
    let opened : Db = insert_order fresh.order_id order db in
    elim (lookup user_id opened.users) [
      | none ↦ raised order_not_found opened
      | some user ↦
          fulfill_device_slots user_id fresh.order_id order true opened
          then_run (λ after. done (update_order fresh.order_id (mark_settled now) after))
    ]

abbrev pub is_balance : Provider → Bool
is_balance balance = true
is_balance _ = false

abbrev pub plan_by_id : Option ℕ → Db → Option Plan
plan_by_id none db = none
plan_by_id (some id) db = lookup id db.plans

abbrev pub plan_of_subscription : Subscription → Db → Option Plan
plan_of_subscription sub db = plan_by_id sub.plan_id db

-- `plan.max_devices - included - paid`
abbrev pub max_allowed : Plan → Subscription → ℤ
max_allowed plan sub = pos plan.max_devices -ℤ pos plan.included_devices -ℤ sub.paid_device_slots

module _ (create_payment : Provider → ℤ → Option ℕ) where
  -- The end of `_create_device_slot_order`: the amount is known.
  unfoldable pub order_device_slots : Fresh → ℕ → Provider → ℕ → ℤ → ℤ → ℕ → ℕ → Db → Run
  unfolding external_of create_balance_device_slot_order
  order_device_slots fresh user_id provider sub_id qty amount_rub now ttl db =
      if is_balance provider
      then create_balance_device_slot_order fresh user_id sub_id qty amount_rub now db
      else place_order fresh
          (record (blank_order user_id amount_rub provider 0) {
            expires_at = some (now + ttl);
            order_type = device_slots;
            device_slots_qty = qty;
          })
          (external_of create_payment fresh provider amount_rub) db
        then_run (λ after. done (link_subscription fresh.order_id sub_id after))

  -- `_create_device_slot_order`
  unfoldable pub create_device_slot_order : Fresh → ℕ → Provider → Option ℕ → ℤ → ℕ → ℕ → Db → Run
  unfolding order_device_slots
  create_device_slot_order fresh user_id provider none qty now ttl db = raised order_not_found db
  create_device_slot_order fresh user_id provider (some sub_id) qty now ttl db =
      elim (lookup sub_id db.subscriptions) [
        | none ↦ raised order_not_found db
        | some sub ↦
            if not sub.is_active
            then raised order_not_found db
            else elim (plan_of_subscription sub db) [
              | none ↦ raised plan_not_purchasable db
              | some plan ↦
                  if ltb_ℤ (max_allowed plan sub) qty
                  then raised device_slot_limit_exceeded db
                  else if plan.device_price_rub == 0
                  then raised plan_not_purchasable db
                  else order_device_slots fresh user_id provider sub_id qty
                      (qty *ℤ pos plan.device_price_rub) now ttl db
            ]
      ]
