-- ===== src/Billing/Purchase.antt =====
-- The debits of services/billing/service.py: a posting to a balance, `_auto_purchase` and
-- `_fulfill_device_slots`. Logs and metrics are left out.
use vpn_control_api.Base.{
  ℕ, ℤ, pos, ◌+ℤ◌, ◌-ℤ◌, ltb_ℤ, Bool, Option, none, some, ◌∷◌, if◌then◌else◌,
}
use vpn_control_api.Base.Table.{lookup, modify}
use vpn_control_api.Store.{
  Db, User, Plan, PaymentOrder, TransactionType, purchase, device_slot_purchase,
  insufficient_balance, Run, done, raised,
}
use vpn_control_api.Billing.Subscriptions.{grant_subscription, update_subscription}

abbrev pub set_balance : ℤ → User → User
set_balance balance u = record u { balance = balance }

-- `_update_user_balance`, then `_record_transaction`, for a user whose balance was read as `old`:
-- the balance becomes `old + amount`, and the transaction says so.
unfoldable pub post : ℕ → ℤ → ℤ → TransactionType → Option ℕ → Db → Db
post user_id old amount type order_id db = record db {
  users = modify user_id (set_balance (old +ℤ amount)) db.users;
  transactions =
      record {
        user_id = user_id;
        amount = amount;
        balance_after = old +ℤ amount;
        type = type;
        order_id = order_id;
      }
      ∷ db.transactions;
}

-- A balance that does not cover the price: an error where the caller is strict, else nothing.
abbrev pub not_covered : Bool → Db → Run
not_covered strict db = if strict then raised insufficient_balance db else done db

-- `_auto_purchase`: debit the balance, and extend or create the subscription.
unfoldable pub auto_purchase : ℕ → ℕ → ℕ → Plan → ℕ → PaymentOrder → ℕ → Bool → Db → Run
unfolding post grant_subscription
auto_purchase new_id user_id plan_id plan order_id order now strict_balance db =
    elim (lookup user_id db.users) [
      | none ↦ not_covered strict_balance db
      | some user ↦
          if ltb_ℤ user.balance order.amount_rub
          then not_covered strict_balance db
          else grant_subscription new_id user_id plan_id plan order_id order now
              (post user_id user.balance (pos 0 -ℤ order.amount_rub) purchase (some order_id) db)
    ]

abbrev pub add_slots : Option ℕ → ℤ → Db → Db
add_slots none qty db = db
add_slots (some sub_id) qty db =
    update_subscription sub_id (λ s. record s { paid_device_slots = s.paid_device_slots +ℤ qty }) db

-- `_fulfill_device_slots`: debit the balance, and add the slots to the order's subscription.
unfoldable pub fulfill_device_slots : ℕ → ℕ → PaymentOrder → Bool → Db → Run
unfolding post
fulfill_device_slots user_id order_id order strict_balance db = elim (lookup user_id db.users) [
  | none ↦ not_covered strict_balance db
  | some user ↦
      if ltb_ℤ user.balance order.amount_rub
      then not_covered strict_balance db
      else done (
          add_slots order.subscription_id order.device_slots_qty (
            post user_id user.balance (pos 0 -ℤ order.amount_rub) device_slot_purchase
              (some order_id) db))
]
