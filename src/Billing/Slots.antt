-- ===== src/Billing/Slots.antt =====
-- An order of device slots that is paid from the balance.
use vpn_control_api.Base.{
  ℕ, ◌≡◌, ℤ, pos, ◌+ℤ◌, ◌-ℤ◌, ◌<ℤ◌, ◌≤ℤ◌, ltb_ℤ, true, false, none, some, ◌==◌, if◌then◌else◌,
  arith, ==_refl, Bool-cases, inl, inr, ◌⊎◌, ap,
}
use vpn_control_api.Base.Table.{lookup, lookup-modify, lookup-append}
use vpn_control_api.Store.{
  Db, User, Subscription, PaymentOrder, paid, balance, device_slots, device_slot_purchase,
  insufficient_balance, done, raised, get_session, create,
}
use vpn_control_api.Billing.Purchase.{post, add_slots, fulfill_device_slots}
use vpn_control_api.Billing.Fulfillment.{update_order}
use vpn_control_api.Billing.Refunds.{balance_of, debit-balance_of}
use vpn_control_api.Billing.Checkout.{
  Fresh, blank_order, insert_order, mark_settled, create_balance_device_slot_order,
}

-- The order as `_create_balance_device_slot_order` opens it.
abbrev pub slot_order : Fresh → ℕ → ℕ → ℤ → ℤ → PaymentOrder
slot_order fresh user_id sub_id qty amount_rub =
    record (blank_order user_id amount_rub balance fresh.external_id) {
      status = paid;
      subscription_id = some sub_id;
      order_type = device_slots;
      device_slots_qty = qty;
    }

-- The database after an order that the balance covers.
abbrev pub settled_db : Fresh → ℕ → ℕ → ℤ → ℤ → ℕ → ℤ → Db → Db
settled_db fresh user_id sub_id qty amount_rub now old db =
    update_order fresh.order_id (mark_settled now) (
      add_slots (some sub_id) qty (
        post user_id old (pos 0 -ℤ amount_rub) device_slot_purchase (some fresh.order_id)
          (insert_order fresh.order_id (slot_order fresh user_id sub_id qty amount_rub) db)))

pub slot_order-done :
    (fresh : Fresh) (user_id sub_id : ℕ) (qty amount_rub : ℤ) (now : ℕ) (db : Db) {u : User}
    → lookup user_id db.users ≡ some u
    → ltb_ℤ u.balance amount_rub ≡ false
    → create_balance_device_slot_order fresh user_id sub_id qty amount_rub now db
      ≡ done (settled_db fresh user_id sub_id qty amount_rub now u.balance db)
unfolding create_balance_device_slot_order fulfill_device_slots
slot_order-done fresh user_id sub_id qty amount_rub now db {u} found covered = ground arith

slot_order-refused :
    (fresh : Fresh) (user_id sub_id : ℕ) (qty amount_rub : ℤ) (now : ℕ) (db : Db) {u : User}
    → lookup user_id db.users ≡ some u
    → ltb_ℤ u.balance amount_rub ≡ true
    → create_balance_device_slot_order fresh user_id sub_id qty amount_rub now db
      ≡ raised insufficient_balance
          (insert_order fresh.order_id (slot_order fresh user_id sub_id qty amount_rub) db)
unfolding create_balance_device_slot_order fulfill_device_slots
slot_order-refused fresh user_id sub_id qty amount_rub now db {u} found short = ground arith

pub settled_db-balance_of :
    (fresh : Fresh) (user_id sub_id : ℕ) (qty amount_rub : ℤ) (now id : ℕ) (db : Db) {u : User}
    → lookup user_id db.users ≡ some u
    → balance_of id (settled_db fresh user_id sub_id qty amount_rub now u.balance db)
      ≡ (if id == user_id then some (u.balance -ℤ amount_rub) else balance_of id db)
unfolding balance_of post
settled_db-balance_of fresh user_id sub_id qty amount_rub now id db {u} found =
    debit-balance_of user_id amount_rub device_slot_purchase (some fresh.order_id) db id found

settled_db-order :
    (fresh : Fresh) (user_id sub_id : ℕ) (qty amount_rub : ℤ) (now : ℕ) (old : ℤ) (db : Db)
    → lookup fresh.order_id db.orders ≡ none
    → lookup fresh.order_id (settled_db fresh user_id sub_id qty amount_rub now old db).orders
      ≡ some (mark_settled now (slot_order fresh user_id sub_id qty amount_rub))
unfolding post
settled_db-order fresh user_id sub_id qty amount_rub now old db unused = ground (
  arith,
  ==_refl fresh.order_id,
  lookup-append fresh.order_id fresh.order_id (slot_order fresh user_id sub_id qty amount_rub)
      db.orders,
  lookup-modify fresh.order_id fresh.order_id (mark_settled now)
      (create fresh.order_id (slot_order fresh user_id sub_id qty amount_rub) db.orders),
)

settled_db-slots :
    (fresh : Fresh) (user_id sub_id : ℕ) (qty amount_rub : ℤ) (now : ℕ) (old : ℤ) (db : Db)
    {s : Subscription}
    → lookup sub_id db.subscriptions ≡ some s
    → lookup sub_id (settled_db fresh user_id sub_id qty amount_rub now old db).subscriptions
      ≡ some (record s { paid_device_slots = s.paid_device_slots +ℤ qty })
unfolding post
settled_db-slots fresh user_id sub_id qty amount_rub now old db {s} found = ground (
  arith,
  ==_refl sub_id,
  lookup-modify sub_id sub_id
      (λ (x : Subscription). record x { paid_device_slots = x.paid_device_slots +ℤ qty })
      db.subscriptions,
)

-- Device slots that a known user orders from the balance, under a free order identifier and for a known
-- subscription: where the balance is below the amount, the call raises InsufficientBalance and the session
-- rolls back to what it was. Otherwise the balance covers the amount, the amount is taken off this balance and no other, the slots are added to the
-- subscription, and the order is stored as completed.
pub slot_order_all_or_nothing :
    (fresh : Fresh) (user_id sub_id : ℕ) (qty amount_rub : ℤ) (now : ℕ) (db : Db) {u : User}
    {s : Subscription}
    → lookup fresh.order_id db.orders ≡ none
    → lookup user_id db.users ≡ some u
    → lookup sub_id db.subscriptions ≡ some s
    → ((u.balance <ℤ amount_rub)
        × (left : Db) × (create_balance_device_slot_order fresh user_id sub_id qty amount_rub now db
            ≡ raised insufficient_balance left)
        × (get_session db
              (create_balance_device_slot_order fresh user_id sub_id qty amount_rub now db)
            ≡ db))
      ⊎ ((amount_rub ≤ℤ u.balance)
          × (after : Db) × (create_balance_device_slot_order fresh user_id sub_id qty amount_rub now
                db
              ≡ done after)
          × ((id : ℕ)
              → balance_of id after
                ≡ (if id == user_id then some (u.balance -ℤ amount_rub) else balance_of id db))
          × (lookup sub_id after.subscriptions
              ≡ some (record s { paid_device_slots = s.paid_device_slots +ℤ qty }))
          × (lookup fresh.order_id after.orders
              ≡ some (mark_settled now (slot_order fresh user_id sub_id qty amount_rub))))
unfolding get_session
slot_order_all_or_nothing fresh user_id sub_id qty amount_rub now db {u} {s} unused known found =
    elim (Bool-cases (ltb_ℤ u.balance amount_rub)) [
      | inl short ↦ inl (
        ground arith,
        insert_order fresh.order_id (slot_order fresh user_id sub_id qty amount_rub) db,
        slot_order-refused fresh user_id sub_id qty amount_rub now db known short,
        ap (get_session db)
            (slot_order-refused fresh user_id sub_id qty amount_rub now db known short),
      )
      | inr covered ↦ inr (
        ground arith,
        settled_db fresh user_id sub_id qty amount_rub now u.balance db,
        slot_order-done fresh user_id sub_id qty amount_rub now db known covered,
        (λ id. settled_db-balance_of fresh user_id sub_id qty amount_rub now id db known),
        settled_db-slots fresh user_id sub_id qty amount_rub now u.balance db found,
        settled_db-order fresh user_id sub_id qty amount_rub now u.balance db unused,
      )
    ]
