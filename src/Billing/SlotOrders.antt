-- ===== src/Billing/SlotOrders.antt =====
-- Orders of device slots through `create_device_slot_order`: the ledger, and the quantity.
use vpn_control_api.Base.{
  ℕ, suc, ◌+◌, ◌*◌, ◌≤◌, ◌≡◌, refl, ℤ, pos, negsuc, ◌-ℤ◌, ◌<ℤ◌, ◌≤ℤ◌, ltb_ℤ, true, false, not,
  Option, none, some, ◌==◌, if◌then◌else◌, arith, ==_refl, ◌∙◌, if_both, option_split, -ℤ_parts,
}
use vpn_control_api.Base.Int.{◌*ℤ◌}
use vpn_control_api.Base.Table.{lookup}
use vpn_control_api.Store.{
  Db, User, Plan, Subscription, PaymentOrder, Provider, balance, device_slots, Run, done, raised,
  session, ◌then_run◌,
}
use vpn_control_api.Billing.Subscriptions.{link_subscription}
use vpn_control_api.Billing.Purchase.{fulfill_device_slots}
use vpn_control_api.Billing.Fulfillment.{update_order}
use vpn_control_api.Billing.Ledger.{IsBalanced, frame-IsBalanced, fulfill_device_slots-IsBalanced}
use vpn_control_api.Billing.Refunds.{balance_of}
use vpn_control_api.Billing.Checkout.{
  Fresh, blank_order, insert_order, mark_settled, is_balance, max_allowed, plan_of_subscription,
  place_order, external_of, create_balance_device_slot_order, order_device_slots,
  create_device_slot_order,
}
use vpn_control_api.Billing.Slots.{slot_order, settled_db, slot_order-done, settled_db-balance_of}

settle-IsBalanced :
    (opening : ℕ → ℤ) (order_id now : ℕ) (r : Run)
    → IsBalanced opening (session r)
    → IsBalanced opening
        (session (r then_run (λ after. done (update_order order_id (mark_settled now) after))))
settle-IsBalanced opening order_id now (done db) h = frame-IsBalanced opening db _ refl refl h
settle-IsBalanced opening order_id now (raised e db) h = h

slot_order-IsBalanced :
    (opening : ℕ → ℤ) (fresh : Fresh) (user_id sub_id : ℕ) (qty amount_rub : ℤ) (now : ℕ) (db : Db)
    → IsBalanced opening db
    → IsBalanced opening
        (session (create_balance_device_slot_order fresh user_id sub_id qty amount_rub now db))
unfolding create_balance_device_slot_order
slot_order-IsBalanced opening fresh user_id sub_id qty amount_rub now db h =
    let opened : Db =
      insert_order fresh.order_id (slot_order fresh user_id sub_id qty amount_rub) db in
    let kept : IsBalanced opening opened = frame-IsBalanced opening db opened refl refl h in
    option_split (λ r. IsBalanced opening (session r)) (lookup user_id opened.users)
      (λ missing. kept)
      λ u found.
        settle-IsBalanced opening fresh.order_id now
          (fulfill_device_slots user_id fresh.order_id
            (slot_order fresh user_id sub_id qty amount_rub) true opened)
          (fulfill_device_slots-IsBalanced opening user_id fresh.order_id
            (slot_order fresh user_id sub_id qty amount_rub) true opened kept)

placed-IsBalanced :
    (opening : ℕ → ℤ) (fresh : Fresh) (order : PaymentOrder) (sub_id : ℕ) (external_id : Option ℕ)
    (db : Db)
    → IsBalanced opening db
    → IsBalanced opening (
        session (
          place_order fresh order external_id db
          then_run (λ after. done (link_subscription fresh.order_id sub_id after))))
placed-IsBalanced opening fresh order sub_id none db h = h
placed-IsBalanced opening fresh order sub_id (some external_id) db h =
    frame-IsBalanced opening db _ refl refl h

order_device_slots-IsBalanced :
    (create_payment : Provider → ℤ → Option ℕ) (opening : ℕ → ℤ) (fresh : Fresh) (user_id : ℕ)
    (provider : Provider) (sub_id : ℕ) (qty amount_rub : ℤ) (now ttl : ℕ) (db : Db)
    → IsBalanced opening db
    → IsBalanced opening (
        session (
          order_device_slots create_payment fresh user_id provider sub_id qty amount_rub now ttl
            db))
unfolding order_device_slots
order_device_slots-IsBalanced create_payment opening fresh user_id provider sub_id qty amount_rub
      now ttl db h =
    if_both (λ r. IsBalanced opening (session r)) (is_balance provider)
      (slot_order-IsBalanced opening fresh user_id sub_id qty amount_rub now db h)
      (placed-IsBalanced opening fresh
        (record (blank_order user_id amount_rub provider 0) {
          expires_at = some (now + ttl);
          order_type = device_slots;
          device_slots_qty = qty;
        })
        sub_id (external_of create_payment fresh provider amount_rub) db h)

module _ (create_payment : Provider → ℤ → Option ℕ) where
  device_slot_order-from_balance :
      (fresh : Fresh) (user_id sub_id : ℕ) (qty : ℤ) (now ttl : ℕ) (db : Db) {s : Subscription}
      {plan : Plan}
      → lookup sub_id db.subscriptions ≡ some s
      → s.is_active ≡ true
      → plan_of_subscription s db ≡ some plan
      → ltb_ℤ (max_allowed plan s) qty ≡ false
      → 1 ≤ plan.device_price_rub
      → create_device_slot_order create_payment fresh user_id balance (some sub_id) qty now ttl db
        ≡ create_balance_device_slot_order fresh user_id sub_id qty
            (qty *ℤ pos plan.device_price_rub)
            now
            db
  unfolding create_device_slot_order order_device_slots
  device_slot_order-from_balance fresh user_id sub_id qty now ttl db {s} {plan} found active here
        allowed priced =
      ground arith

  -- `create_device_slot_order` keeps every balance equal to the opening balance and the recorded
  -- transactions, in the session that it leaves, for every provider and on every branch.
  pub create_device_slot_order-IsBalanced :
      (opening : ℕ → ℤ) (fresh : Fresh) (user_id : ℕ) (provider : Provider) (sub_id : Option ℕ)
      (qty : ℤ) (now ttl : ℕ) (db : Db)
      → IsBalanced opening db
      → IsBalanced opening (
          session
            (create_device_slot_order create_payment fresh user_id provider sub_id qty now ttl db))
  unfolding create_device_slot_order
  create_device_slot_order-IsBalanced opening fresh user_id provider none qty now ttl db h = h
  create_device_slot_order-IsBalanced opening fresh user_id provider (some sub_id) qty now ttl db
        h =
      option_split (λ r. IsBalanced opening (session r)) (lookup sub_id db.subscriptions)
        (λ missing. h)
        λ sub found.
          if_both (λ r. IsBalanced opening (session r)) (not sub.is_active) h
            (option_split (λ r. IsBalanced opening (session r)) (plan_of_subscription sub db)
              (λ missing. h)
              λ plan here.
                if_both (λ r. IsBalanced opening (session r)) (ltb_ℤ (max_allowed plan sub) qty) h
                  (if_both (λ r. IsBalanced opening (session r)) (plan.device_price_rub == 0) h
                    (order_device_slots-IsBalanced create_payment opening fresh user_id provider
                      sub_id qty (qty *ℤ pos plan.device_price_rub) now ttl db h)))

negative_price : (n p : ℕ) → 1 ≤ p → (negsuc n *ℤ pos p) <ℤ pos 0
unfolding ◌*ℤ◌
negative_price n p h = let positive : 1 ≤ suc n * p = grind arith in ground arith

not_below : (b a : ℤ) → pos 0 ≤ℤ b → a <ℤ pos 0 → ltb_ℤ b a ≡ false
not_below b a nonneg negative = ground arith

less_negative : (b a : ℤ) → a <ℤ pos 0 → b <ℤ b -ℤ a
less_negative b a negative = omega (arith, -ℤ_parts b a)

own_amount :
    (user_id : ℕ) (b : ℤ) (other : Option ℤ)
    → (if user_id == user_id then some b else other) ≡ some b
own_amount user_id b other = ground (arith, ==_refl user_id)

-- The quantity of an order of device slots has no lower bound: for a plan that sells slots and a
-- subscription that may still take them, an order of a negative number of slots, paid from a balance
-- that is not negative, succeeds and raises the balance.
pub negative_slots_pay_out :
    (create_payment : Provider → ℤ → Option ℕ) (fresh : Fresh) (user_id sub_id n now ttl : ℕ)
    (db : Db) {u : User} {s : Subscription} {plan : Plan}
    → lookup user_id db.users ≡ some u
    → pos 0 ≤ℤ u.balance
    → lookup sub_id db.subscriptions ≡ some s
    → s.is_active ≡ true
    → plan_of_subscription s db ≡ some plan
    → pos 0 ≤ℤ max_allowed plan s
    → 1 ≤ plan.device_price_rub
    → (after : Db) × (create_device_slot_order create_payment fresh user_id balance
          (some sub_id)
          (negsuc n)
          now
          ttl
          db
        ≡ done after)
      × (b : ℤ) × (balance_of user_id after ≡ some b)
      × (u.balance <ℤ b)
negative_slots_pay_out create_payment fresh user_id sub_id n now ttl db {u} {s} {plan} known nonneg
      found active here room priced =
    let price = negsuc n *ℤ pos plan.device_price_rub in
    let negative = negative_price n plan.device_price_rub priced in
    (
      settled_db fresh user_id sub_id (negsuc n) price now u.balance db,
      device_slot_order-from_balance create_payment fresh user_id sub_id (negsuc n) now ttl db found
            active here (not_below (max_allowed plan s) (negsuc n) room (omega arith)) priced
          ∙ slot_order-done fresh user_id sub_id (negsuc n) price now db known
              (not_below u.balance price nonneg negative),
      u.balance -ℤ price,
      settled_db-balance_of fresh user_id sub_id (negsuc n) price now user_id db known
          ∙ own_amount user_id (u.balance -ℤ price) (balance_of user_id db),
      less_negative u.balance price negative,
    )
