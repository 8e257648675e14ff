-- ===== src/Billing/Conservation.antt =====
-- No call of services/billing/service.py changes a balance without a transaction for it.
use vpn_control_api.Base.{
  ℕ, ◌≡◌, refl, ℤ, pos, ◌-ℤ◌, ◌+ℤ◌, scale, scale-0, round_to-0, sym, ltb_ℤ, Bool, not, ◌&&◌, Option,
  none, some, ltb, if_both, option_split,
}
use mathlib.Core.Path.{subst}
use vpn_control_api.Base.Table.{lookup}
use vpn_control_api.Billing.Purchase.{post}
use vpn_control_api.Store.{
  Db, User, TransactionType, PaymentOrder, payment, refund, manual_credit, manual_debit, Run, done,
  raised, session, ◌then_run◌,
}
use vpn_control_api.Promo.Service.{record_activation}
use vpn_control_api.Referral.Service.{is_paid}
use vpn_control_api.Billing.Fulfillment.{
  Payment, activation_of, record_promo_activation, purchase_plan, deliver, receive, complete,
  fulfill_order_locked, update_order, mark_completed, mark_paid, fee_of_payment, earns_reward,
  is_final, is_expired, is_device_slots,
}
use vpn_control_api.Billing.Entry.{
  Webhook, differs, is_pending, is_stars, get_by_external_id, deactivate, process_webhook,
  confirm_stars_payment, refund_order, post_manual, credit_balance, debit_balance,
}
use vpn_control_api.Billing.Ledger.{
  IsBalanced, post-IsBalanced, frame-IsBalanced, process_reward-IsBalanced,
  auto_purchase-IsBalanced, fulfill_device_slots-IsBalanced,
}

pub post_manual-0 :
    (user_id : ℕ) (old amount : ℤ) (type : TransactionType) (db : Db)
    → post_manual user_id old 0 amount type db ≡ post user_id old amount type none db
unfolding post_manual post
post_manual-0 user_id old amount type db =
    rw (scale-0 old, round_to-0 (old +ℤ amount), round_to-0 amount) refl

module _ (opening : ℕ → ℤ) where
  purchase_plan-IsBalanced :
      (user_id : ℕ) (p : Payment) (order_id : ℕ) (order : PaymentOrder) (plan_id : Option ℕ)
      (db : Db)
      → IsBalanced opening db
      → IsBalanced opening (session (purchase_plan user_id p order_id order plan_id db))
  purchase_plan-IsBalanced user_id p order_id order none db h = h
  purchase_plan-IsBalanced user_id p order_id order (some plan_id) db h =
      option_split (λ r. IsBalanced opening (session r)) (lookup plan_id db.plans) (λ missing. h)
        λ plan found.
          if_both (λ r. IsBalanced opening (session r)) (plan.is_active && ltb 0 plan.price_rub)
            (auto_purchase-IsBalanced opening p.new_id user_id plan_id plan order_id order p.now
              Bool.false db h)
            h

  deliver-IsBalanced :
      (user_id : ℕ) (p : Payment) (order_id : ℕ) (order : PaymentOrder) (db : Db)
      → IsBalanced opening db
      → IsBalanced opening (session (deliver user_id p order_id order db))
  unfolding deliver
  deliver-IsBalanced user_id p order_id order db h =
      if_both (λ r. IsBalanced opening (session r)) (is_device_slots order.order_type)
        (fulfill_device_slots-IsBalanced opening user_id order_id order Bool.false db h)
        (purchase_plan-IsBalanced user_id p order_id order order.plan_id db h)

  activation_of-IsBalanced :
      (order_id : ℕ) (order : PaymentOrder) (promo_id discount : Option ℕ) (db : Db)
      → IsBalanced opening db
      → IsBalanced opening (activation_of order_id order promo_id discount db)
  unfolding record_activation
  activation_of-IsBalanced order_id order (some promo_id) (some discount) db h =
      frame-IsBalanced opening db _ refl refl h
  activation_of-IsBalanced order_id order (some promo_id) none db h = h
  activation_of-IsBalanced order_id order none discount db h = h

  receive-IsBalanced :
      (p : Payment) (order_id : ℕ) (order : PaymentOrder) (db : Db) {u : User}
      → lookup order.user_id db.users ≡ some u
      → IsBalanced opening db
      → IsBalanced opening (receive order.user_id u.balance p order_id order db)
  unfolding receive record_promo_activation
  receive-IsBalanced p order_id order db found h =
      activation_of-IsBalanced order_id order order.promo_code_id order.discount_rub _ (
        post-IsBalanced opening order.user_id order.amount_rub payment (some order_id)
          (update_order order_id (mark_paid p.now (fee_of_payment p order.amount_rub db)) db) found
          (frame-IsBalanced opening db _ refl refl h))

  complete-IsBalanced :
      (p : Payment) (order_id : ℕ) (order : PaymentOrder) (db : Db)
      → IsBalanced opening db
      → IsBalanced opening (complete p order_id order db)
  unfolding complete
  complete-IsBalanced p order_id order db h =
      let after =
        frame-IsBalanced opening db (update_order order_id (mark_completed p.now) db) refl refl h in
      if_both (IsBalanced opening) (earns_reward order.order_type p.provider)
        (process_reward-IsBalanced opening p.referral order.user_id p.now _ after) after

  then_run-IsBalanced :
      (r : Run) (f : Db → Db)
      → ((db : Db) → IsBalanced opening db → IsBalanced opening (f db))
      → IsBalanced opening (session r)
      → IsBalanced opening (session (r then_run (λ db. done (f db))))
  then_run-IsBalanced (done db) f keeps h = keeps db h
  then_run-IsBalanced (raised e db) f keeps h = h

  -- A fulfilment keeps every balance equal to the opening balance and the recorded transactions, in the
  -- session that it leaves, whether it completes or raises.
  pub fulfill_order_locked-IsBalanced :
      (p : Payment) (order_id : ℕ) (order : PaymentOrder) (db : Db)
      → IsBalanced opening db
      → IsBalanced opening (session (fulfill_order_locked p order_id order db))
  unfolding fulfill_order_locked
  fulfill_order_locked-IsBalanced p order_id order db h =
      if_both (λ r. IsBalanced opening (session r)) (is_final order.status) h
        (if_both (λ r. IsBalanced opening (session r)) (is_expired order.status) h
          (option_split (λ r. IsBalanced opening (session r)) (lookup order.user_id db.users)
            (λ missing. frame-IsBalanced opening db _ refl refl h)
            (λ u found.
              then_run-IsBalanced (deliver order.user_id p order_id order _) _
                (complete-IsBalanced p order_id order)
                (deliver-IsBalanced order.user_id p order_id order _
                  (receive-IsBalanced p order_id order db found h)))))

  pub process_webhook-IsBalanced :
      (w : Webhook) (db : Db)
      → IsBalanced opening db
      → IsBalanced opening (session (process_webhook w db))
  unfolding process_webhook
  process_webhook-IsBalanced w db h =
      option_split (λ r. IsBalanced opening (session r))
        (get_by_external_id w.external_id db.orders) (λ missing. h)
        λ found e.
          if_both (λ r. IsBalanced opening (session r))
            (ltb_ℤ (pos 0) w.amount_rub && differs (found.1).amount_rub w.amount_rub) h
            (if_both (λ r. IsBalanced opening (session r)) w.should_fulfill
              (fulfill_order_locked-IsBalanced w.payment found.0 found.1 db h)
              (if_both (λ r. IsBalanced opening (session r))
                (w.canceled && is_pending (found.1).status)
                (frame-IsBalanced opening db _ refl refl h) h))

  pub confirm_stars_payment-IsBalanced :
      (p : Payment) (order_id : ℕ) (db : Db)
      → IsBalanced opening db
      → IsBalanced opening (session (confirm_stars_payment p order_id db))
  unfolding confirm_stars_payment
  confirm_stars_payment-IsBalanced p order_id db h =
      option_split (λ r. IsBalanced opening (session r)) (lookup order_id db.orders) (λ missing. h)
        λ order found.
          if_both (λ r. IsBalanced opening (session r)) (is_stars order.provider)
            (fulfill_order_locked-IsBalanced _ order_id order db h) h

  deactivate-IsBalanced :
      (flag : Bool) (sub_id : Option ℕ) (db : Db)
      → IsBalanced opening db
      → IsBalanced opening (deactivate flag sub_id db)
  deactivate-IsBalanced Bool.true (some sub_id) db h = frame-IsBalanced opening db _ refl refl h
  deactivate-IsBalanced Bool.true none db h = h
  deactivate-IsBalanced Bool.false sub_id db h = h

  pub refund_order-IsBalanced :
      (order_id : ℕ) (flag : Bool) (db : Db)
      → IsBalanced opening db
      → IsBalanced opening (session (refund_order order_id flag db))
  unfolding refund_order
  refund_order-IsBalanced order_id flag db h =
      option_split (λ r. IsBalanced opening (session r)) (lookup order_id db.orders) (λ missing. h)
        λ order found.
          if_both (λ r. IsBalanced opening (session r)) (not (is_paid order.status)) h
            (option_split (λ r. IsBalanced opening (session r)) (lookup order.user_id db.users)
              (λ missing. h)
              (λ u e. deactivate-IsBalanced flag order.subscription_id _ (
                frame-IsBalanced opening _ _ refl refl (
                  post-IsBalanced opening order.user_id (pos 0 -ℤ order.amount_rub) refund
                    (some order_id) db e h))))

  -- A manual operation in whole hundredths is a posting.
  post_manual-IsBalanced :
      (user_id : ℕ) (amount : ℤ) (type : TransactionType) (db : Db) {u : User}
      → lookup user_id db.users ≡ some u
      → IsBalanced opening db
      → IsBalanced opening (post_manual user_id u.balance 0 amount type db)
  post_manual-IsBalanced user_id amount type db {u} found h =
      subst (IsBalanced opening) (sym (post_manual-0 user_id u.balance amount type db))
        (post-IsBalanced opening user_id amount type none db found h)

  pub credit_balance-IsBalanced :
      (user_id amount : ℕ) (db : Db)
      → IsBalanced opening db
      → IsBalanced opening (session (credit_balance user_id 0 amount db))
  unfolding credit_balance
  credit_balance-IsBalanced user_id amount db h =
      option_split (λ r. IsBalanced opening (session r)) (lookup user_id db.users) (λ missing. h)
        λ u found. post_manual-IsBalanced user_id (pos amount) manual_credit db found h

  pub debit_balance-IsBalanced :
      (user_id amount : ℕ) (db : Db)
      → IsBalanced opening db
      → IsBalanced opening (session (debit_balance user_id 0 amount db))
  unfolding debit_balance
  debit_balance-IsBalanced user_id amount db h =
      option_split (λ r. IsBalanced opening (session r)) (lookup user_id db.users) (λ missing. h)
        λ u found.
          if_both (λ r. IsBalanced opening (session r)) (ltb_ℤ (scale 0 u.balance) (pos amount)) h
            (post_manual-IsBalanced user_id (pos 0 -ℤ pos amount) manual_debit db found h)
