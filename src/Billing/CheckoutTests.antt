-- ===== src/Billing/CheckoutTests.antt =====
-- The theorems on new orders and on their expiry at concrete databases.
use vpn_control_api.Base.{
  ℕ, ◌≡◌, refl, ℤ, pos, negsuc, ◌-ℤ◌, ◌<ℤ◌, ◌≤ℤ◌, Option, none, some, [], ◌∷◌, ◌==◌, if◌then◌else◌,
  arith, int_laws, ◌⊎◌,
}
use vpn_control_api.Base.Int.{◌+ℤ◌}
use vpn_control_api.Base.Table.{Table, lookup}
use vpn_control_api.Store.{
  Db, PaymentOrder, Provider, balance, plan_purchase, completed, done, raised, insufficient_balance,
  session, get_session,
}
use vpn_control_api.Billing.Ledger.{IsBalanced, total}
use vpn_control_api.Billing.Refunds.{balance_of}
use vpn_control_api.Billing.Checkout.{
  Fresh, mark_settled, create_balance_device_slot_order, create_device_slot_order,
}
use vpn_control_api.Billing.PlanCheckout.{PlanOrder, create_balance_plan_order}
use vpn_control_api.Billing.Slots.{slot_order, slot_order_all_or_nothing}
use vpn_control_api.Billing.SlotOrders.{create_device_slot_order-IsBalanced, negative_slots_pay_out}
use vpn_control_api.Billing.PlanOrders.{IsDelivered, plan_order_all_or_nothing}
use vpn_control_api.Billing.Samples.{client, basic, current, bought, shop}

abbrev gateway : Provider → ℤ → Option ℕ
gateway provider amount = some 78

abbrev fresh : Fresh
fresh = record { order_id = 5; external_id = 79; subscription_id = 9 }

abbrev opening : ℕ → ℤ
opening id = if id == 1 then pos 5000 else pos 0

shop-IsBalanced : IsBalanced opening shop
unfolding IsBalanced total lookup ◌+ℤ◌
shop-IsBalanced id u found = ground arith

slot_order_all_or_nothing_example :
    ((pos 5000 <ℤ pos 4000)
      × (left : Db) × (create_balance_device_slot_order fresh 1 3 (pos 1) (pos 4000) 1000 shop
          ≡ raised insufficient_balance left)
      × (get_session shop (create_balance_device_slot_order fresh 1 3 (pos 1) (pos 4000) 1000 shop)
          ≡ shop))
    ⊎ ((pos 4000 ≤ℤ pos 5000)
        × (after : Db) × (create_balance_device_slot_order fresh 1 3 (pos 1) (pos 4000) 1000 shop
            ≡ done after)
        × ((id : ℕ)
            → balance_of id after
              ≡ (if id == 1 then some (pos 5000 -ℤ pos 4000) else balance_of id shop))
        × (lookup 3 after.subscriptions
            ≡ some (record current { paid_device_slots = pos 0 +ℤ pos 1 }))
        × (lookup 5 after.orders
            ≡ some (mark_settled 1000 (slot_order fresh 1 3 (pos 1) (pos 4000)))))
unfolding lookup
slot_order_all_or_nothing_example =
    slot_order_all_or_nothing fresh 1 3 (pos 1) (pos 4000) 1000 shop {u = client} {s = current} refl
      refl refl

create_device_slot_order-IsBalanced_example :
    IsBalanced opening
      (session (create_device_slot_order gateway fresh 1 balance (some 3) (pos 1) 1000 60 shop))
create_device_slot_order-IsBalanced_example =
    create_device_slot_order-IsBalanced gateway opening fresh 1 balance (some 3) (pos 1) 1000 60
      shop shop-IsBalanced

negative_slots_pay_out_example :
    (after : Db) × (create_device_slot_order gateway fresh 1 balance
        (some 3)
        (negsuc 0)
        1000
        60
        shop
      ≡ done after)
    × (b : ℤ) × (balance_of 1 after ≡ some b)
    × (pos 5000 <ℤ b)
unfolding lookup
negative_slots_pay_out_example =
    negative_slots_pay_out gateway fresh 1 3 0 1000 60 shop {u = client} {s = current}
      {plan = basic} refl (omega arith) refl refl refl (omega int_laws) (omega arith)

abbrev order_request : PlanOrder
order_request = record {
  user_id = 1;
  plan_id = 2;
  order_type = plan_purchase;
  subscription_id = none;
  amount_rub = pos 4500;
  extra_devices = pos 0;
  period_months = 1;
  promo_code_id = none;
  discount_rub = none;
}

plan_order_all_or_nothing_example :
    ((pos 5000 <ℤ pos 4500)
      × (left : Db) × (create_balance_plan_order fresh basic order_request 1000 shop
          ≡ raised insufficient_balance left)
      × (get_session shop (create_balance_plan_order fresh basic order_request 1000 shop) ≡ shop))
    ⊎ ((pos 4500 ≤ℤ pos 5000)
        × (after : Db) × (create_balance_plan_order fresh basic order_request 1000 shop
            ≡ done after)
        × IsDelivered fresh order_request 1000 (pos 5000) shop after)
unfolding lookup ◌+ℤ◌
plan_order_all_or_nothing_example =
    plan_order_all_or_nothing fresh basic order_request 1000 shop {u = client} refl (refl, tt) refl
      refl (omega arith) (omega arith)

abbrev unpaid : Table PaymentOrder
unpaid =
    (4, bought)
    ∷ (5, record bought { expires_at = some 8000 })
    ∷ (6, record bought { status = completed })
    ∷ []
