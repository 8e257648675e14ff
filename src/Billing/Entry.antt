-- ===== src/Billing/Entry.antt =====
-- The calls of services/billing/service.py from outside: the webhook, the Stars confirmation, the
-- refund, the two manual balance operations, and the expiry of unpaid orders.
use vpn_control_api.Base.{
  ℕ, ℤ, pos, ◌+ℤ◌, ◌-ℤ◌, ltb_ℤ, Bool, true, false, not, ◌&&◌, ◌||◌, Option, none, some, [], ◌∷◌,
  ◌==◌, if◌then◌else◌,
}
use vpn_control_api.Base.Int.{round_to, scale}
use vpn_control_api.Base.Table.{Table, lookup, modify}
use vpn_control_api.Store.{
  Db, PaymentOrder, OrderStatus, pending, expired, refunded, Provider, stars, refund, manual_credit,
  manual_debit, TransactionType, order_not_found, refund_not_allowed, insufficient_balance,
  fulfillment_failed, provider_error, webhook_verification_failed, Run, done, raised,
}
use vpn_control_api.Referral.Service.{is_paid}
use vpn_control_api.Billing.Subscriptions.{update_subscription}
use vpn_control_api.Billing.Purchase.{post, set_balance}
use vpn_control_api.Billing.Fulfillment.{Payment, update_order, fulfill_order_locked}

-- `OrderRepository.get_by_external_id_for_update`; the column is unique.
unfoldable pub get_by_external_id : ℕ → Table PaymentOrder → Option (ℕ × PaymentOrder)
get_by_external_id external_id [] = none
get_by_external_id external_id ((id, o) ∷ t) =
    let rest = get_by_external_id external_id t in
    if o.external_id == external_id then some (id, o) else rest

-- A verified webhook. `canceled` tells the provider status "CANCELED".
pub record Webhook : Type 0 where
  pub external_id : ℕ
  pub amount_rub : ℤ
  pub should_fulfill : Bool
  pub canceled : Bool
  pub payment : Payment

abbrev pub is_pending : OrderStatus → Bool
is_pending pending = true
is_pending _ = false

abbrev pub differs : ℤ → ℤ → Bool
differs a b = ltb_ℤ a b || ltb_ℤ b a

-- `process_webhook`, once the provider has verified the request.
unfoldable pub process_webhook : Webhook → Db → Run
process_webhook w db = elim (get_by_external_id w.external_id db.orders) [
  | none ↦ raised order_not_found db
  | some (order_id, order) ↦
      if ltb_ℤ (pos 0) w.amount_rub && differs order.amount_rub w.amount_rub
      then raised webhook_verification_failed db
      else if w.should_fulfill
      then fulfill_order_locked w.payment order_id order db
      else if w.canceled && is_pending order.status
      then done (update_order order_id (λ o. record o { status = expired }) db)
      else done db
]

abbrev pub is_stars : Provider → Bool
is_stars stars = true
is_stars _ = false

-- `confirm_stars_payment`
unfoldable pub confirm_stars_payment : Payment → ℕ → Db → Run
confirm_stars_payment p order_id db = elim (lookup order_id db.orders) [
  | none ↦ raised order_not_found db
  | some order ↦
      if is_stars order.provider
      then fulfill_order_locked
          (record p { provider = stars; fee_rub = none; payment_method = none }) order_id order db
      else raised provider_error db
]

abbrev pub deactivate : Bool → Option ℕ → Db → Db
deactivate true (some sub_id) db =
    update_subscription sub_id (λ s. record s { is_active = false }) db
deactivate _ _ db = db

-- `refund_order`; `is_paid` is `status in ORDER_REFUNDABLE_STATUSES`.
unfoldable pub refund_order : ℕ → Bool → Db → Run
refund_order order_id deactivate_subscription db = elim (lookup order_id db.orders) [
  | none ↦ raised order_not_found db
  | some order ↦
      if not (is_paid order.status)
      then raised refund_not_allowed db
      else elim (lookup order.user_id db.users) [
        | none ↦ raised fulfillment_failed db
        | some user ↦ done (
            deactivate deactivate_subscription order.subscription_id (
              update_order order_id (λ o. record o { status = refunded })
                (post order.user_id user.balance (pos 0 -ℤ order.amount_rub) refund (some order_id)
                  db)))
      ]
]

-- The amount of a manual operation may have any number of decimal places: it is counted in units of which
-- `10 ^ digits` make a hundredth of a rouble, with 0 digits for one of whole hundredths. `_update_user_balance`
-- and `_record_transaction` then store what is exact in columns of type `Numeric(10, 2)`, and each
-- rounds for itself.
unfoldable pub post_manual : ℕ → ℤ → ℕ → ℤ → TransactionType → Db → Db
unfolding round_to scale
post_manual user_id old digits amount type db = record db {
  users = modify user_id (set_balance (round_to digits (scale digits old +ℤ amount))) db.users;
  transactions =
      record {
        user_id = user_id;
        amount = round_to digits amount;
        balance_after = round_to digits (scale digits old +ℤ amount);
        type = type;
        order_id = none;
      }
      ∷ db.transactions;
}

-- `credit_balance`; the schema keeps the amount positive.
unfoldable pub credit_balance : ℕ → ℕ → ℕ → Db → Run
unfolding post_manual
credit_balance user_id digits amount db = elim (lookup user_id db.users) [
  | none ↦ raised order_not_found db
  | some user ↦ done (post_manual user_id user.balance digits (pos amount) manual_credit db)
]

-- `debit_balance`
unfoldable pub debit_balance : ℕ → ℕ → ℕ → Db → Run
unfolding post_manual
debit_balance user_id digits amount db = elim (lookup user_id db.users) [
  | none ↦ raised order_not_found db
  | some user ↦
      if ltb_ℤ (scale digits user.balance) (pos amount)
      then raised insufficient_balance db
      else done (post_manual user_id user.balance digits (pos 0 -ℤ pos amount) manual_debit db)
]
