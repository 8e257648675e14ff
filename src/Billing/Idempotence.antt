-- ===== src/Billing/Idempotence.antt =====
-- A payment that is reported twice is booked once.
use mathlib.Core.Path.{subst}
use vpn_control_api.Base.{
  ℕ, ◌≡◌, refl, ℤ, pos, ltb_ℤ, true, false, ◌&&◌, some, arith, ap, sym, if_both, if_split,
  option_split, ==_refl,
}
use vpn_control_api.Base.Table.{lookup}
use vpn_control_api.Store.{
  Db, Error, PaymentOrder, completed, expired, Run, done, raised, session, ◌then_run◌,
}
use vpn_control_api.Referral.Service.{
  ReferralSettings, process_reward_if_eligible, pay_reward, credit_user,
}
use vpn_control_api.Billing.Purchase.{post}
use vpn_control_api.Billing.Fulfillment.{
  Payment, deliver, complete, fulfill_order_locked, update_order, mark_completed, is_final,
  is_expired,
}
use vpn_control_api.Billing.Entry.{
  Webhook, differs, get_by_external_id, process_webhook, is_pending,
}
use vpn_control_api.Billing.Orders.{
  HasOrder, get_by_external_id-modify, deliver-HasOrder, receive-HasOrder,
}

-- The order is known, and completed.
unfoldable IsBooked : ℕ → ℕ → ℤ → Db → Type 0
IsBooked ext id amount db =
    (o : PaymentOrder) × (get_by_external_id ext db.orders ≡ some (id, o))
    × (o.amount_rub ≡ amount)
    × (o.status ≡ completed)

process_reward-orders :
    (settings : ReferralSettings) (user_id now : ℕ) (db : Db)
    → (process_reward_if_eligible settings user_id now db).orders ≡ db.orders
unfolding process_reward_if_eligible pay_reward credit_user post
process_reward-orders settings user_id now db = ground arith

complete-IsBooked :
    (ext id : ℕ) (amount : ℤ) (p : Payment) (order : PaymentOrder) (db : Db)
    → HasOrder ext id amount db
    → IsBooked ext id amount (complete p id order db)
unfolding HasOrder IsBooked complete
complete-IsBooked ext id amount p order db (o, found, e) = (
  mark_completed p.now o,
  ground (
    arith,
    ==_refl id,
    get_by_external_id-modify ext id id (mark_completed p.now) db.orders {o = o} (λ x. refl),
    process_reward-orders p.referral order.user_id p.now
        (update_order id (mark_completed p.now) db),
  ),
  e,
  refl,
)

-- The same report at another time.
abbrev pub delivered_with : Payment → Webhook → Webhook
delivered_with p w = record w { payment = p }

-- Where a webhook is answered, so is the same report at any time, and it changes nothing more.
unfoldable Repeats : Webhook → Run → Type 0
Repeats w r =
    (after : Db)
    → r ≡ done after
    → (p : Payment) → process_webhook (delivered_with p w) after ≡ done after

unchanged-Repeats :
    (w : Webhook) (db : Db)
    → ((p : Payment) → process_webhook (delivered_with p w) db ≡ done db)
    → Repeats w (done db)
unfolding Repeats
unchanged-Repeats w db h after e p =
    subst (λ x. process_webhook (delivered_with p w) x ≡ done x) (ap session e) (h p)

raised-Repeats : (w : Webhook) (x : Error) (db : Db) → Repeats w (raised x db)
unfolding Repeats
raised-Repeats w x db after e p = ground arith

-- A webhook for an order in a final status changes nothing.
settled_order :
    (w : Webhook) (db : Db) (id : ℕ) (o : PaymentOrder)
    → get_by_external_id w.external_id db.orders ≡ some (id, o)
    → (ltb_ℤ (pos 0) w.amount_rub && differs o.amount_rub w.amount_rub) ≡ false
    → w.should_fulfill ≡ true
    → is_final o.status ≡ true
    → process_webhook w db ≡ done db
unfolding process_webhook fulfill_order_locked
settled_order w db id o found amounts fulfils final = ground arith

booked-settled_order :
    (w : Webhook) (db : Db) (id : ℕ) (amount : ℤ)
    → (ltb_ℤ (pos 0) w.amount_rub && differs amount w.amount_rub) ≡ false
    → w.should_fulfill ≡ true
    → IsBooked w.external_id id amount db
    → process_webhook w db ≡ done db
unfolding IsBooked
booked-settled_order w db id amount amounts fulfils (o, found, same, is_done) =
    settled_order w db id o found
      (subst (λ a. (ltb_ℤ (pos 0) w.amount_rub && differs a w.amount_rub) ≡ false) (sym same)
        amounts)
      fulfils (subst (λ s. is_final s ≡ true) (sym is_done) refl)

then_run-Repeats :
    (w : Webhook) (id : ℕ) (order : PaymentOrder) (r : Run)
    → (ltb_ℤ (pos 0) w.amount_rub && differs order.amount_rub w.amount_rub) ≡ false
    → w.should_fulfill ≡ true
    → HasOrder w.external_id id order.amount_rub (session r)
    → Repeats w (r then_run (λ delivered. done (complete w.payment id order delivered)))
then_run-Repeats w id order (done db) amounts fulfils h = unchanged-Repeats w _ (λ p.
    booked-settled_order (delivered_with p w) _ id order.amount_rub amounts fulfils
      (complete-IsBooked w.external_id id order.amount_rub w.payment order db h))
then_run-Repeats w id order (raised x db) amounts fulfils h = raised-Repeats w x db

fulfill_order_locked-Repeats :
    (w : Webhook) (db : Db) (id : ℕ) (order : PaymentOrder)
    → get_by_external_id w.external_id db.orders ≡ some (id, order)
    → (ltb_ℤ (pos 0) w.amount_rub && differs order.amount_rub w.amount_rub) ≡ false
    → w.should_fulfill ≡ true
    → Repeats w (fulfill_order_locked w.payment id order db)
unfolding fulfill_order_locked HasOrder
fulfill_order_locked-Repeats w db id order found amounts fulfils =
    if_split (Repeats w) (is_final order.status)
      (λ final.
        unchanged-Repeats w db
          (λ p. settled_order (delivered_with p w) db id order found amounts fulfils final))
      λ unpaid. if_both (Repeats w) (is_expired order.status) (raised-Repeats w _ db) (
        option_split (Repeats w) (lookup order.user_id db.users) (λ missing. raised-Repeats w _ _)
          λ u here.
            then_run-Repeats w id order (deliver order.user_id w.payment id order _) amounts fulfils
              (deliver-HasOrder w.external_id id order.amount_rub order.user_id w.payment id order _
                (receive-HasOrder w.external_id id order.amount_rub order.user_id u.balance
                  w.payment id order db (order, found, refl))))

-- A cancellation that expires an unpaid order finds it no longer pending the next time.
cancelled-Repeats :
    (w : Webhook) (db : Db) (id : ℕ) (order : PaymentOrder)
    → get_by_external_id w.external_id db.orders ≡ some (id, order)
    → (ltb_ℤ (pos 0) w.amount_rub && differs order.amount_rub w.amount_rub) ≡ false
    → w.should_fulfill ≡ false
    → process_webhook w (update_order id (λ o. record o { status = expired }) db)
      ≡ done (update_order id (λ o. record o { status = expired }) db)
unfolding process_webhook
cancelled-Repeats w db id order found amounts waits = ground (
  arith,
  ==_refl id,
  get_by_external_id-modify w.external_id id id (λ o. record o { status = expired }) db.orders
      {o = order} (λ x. refl),
)

untouched :
    (w : Webhook) (db : Db) (id : ℕ) (order : PaymentOrder)
    → get_by_external_id w.external_id db.orders ≡ some (id, order)
    → (ltb_ℤ (pos 0) w.amount_rub && differs order.amount_rub w.amount_rub) ≡ false
    → w.should_fulfill ≡ false
    → (w.canceled && is_pending order.status) ≡ false
    → process_webhook w db ≡ done db
unfolding process_webhook
untouched w db id order found amounts waits idle = ground arith

every-Repeats : (w : Webhook) (db : Db) → Repeats w (process_webhook w db)
unfolding process_webhook
every-Repeats w db =
    option_split (Repeats w) (get_by_external_id w.external_id db.orders)
      (λ missing. raised-Repeats w _ db)
      λ (id, order) found.
        if_split (Repeats w) (ltb_ℤ (pos 0) w.amount_rub && differs order.amount_rub w.amount_rub)
          (λ wrong. raised-Repeats w _ db)
          λ amounts.
            if_split (Repeats w) w.should_fulfill
              (fulfill_order_locked-Repeats w db id order found amounts)
              λ waits.
                if_split (Repeats w) (w.canceled && is_pending order.status)
                  (λ cancels.
                    unchanged-Repeats w _
                      (λ p. cancelled-Repeats (delivered_with p w) db id order found amounts waits))
                  λ idle.
                    unchanged-Repeats w db
                      (λ p. untouched (delivered_with p w) db id order found amounts waits idle)

-- A webhook that a payment system delivers again, with the same order, amount and outcome, at any other time and under
-- any settings, fees and new identifiers: where the first delivery is answered without an error, so is the second one,
-- and it leaves the database as the first one left it.
pub process_webhook_again :
    (w : Webhook) (p : Payment) (db after : Db)
    → process_webhook w db ≡ done after
    → process_webhook (delivered_with p w) after ≡ done after
unfolding Repeats
process_webhook_again w p db after e = every-Repeats w db after e p
