-- ===== src/Billing/Tests.antt =====
-- The theorems on billing at concrete databases.
use vpn_control_api.Base.{
  ℕ, ◌+◌, ◌*◌, ◌^◌, ◌≤◌, ◌≡◌, refl, ℤ, pos, negsuc, ◌-ℤ◌, ◌<ℤ◌, Bool, true, false, none, some, [],
  ◌∷◌, ◌==◌, if◌then◌else◌, arith, ◌⊎◌,
}
use vpn_control_api.Base.Int.{◌+ℤ◌, scale}
use vpn_control_api.Base.Table.{lookup, modify}
use vpn_control_api.Store.{
  Db, PaymentOrder, completed, refunded, freekassa, done, raised, session, refund_not_allowed,
  insufficient_balance,
}
use vpn_control_api.Billing.Fulfillment.{
  complete, record_promo_activation, Payment, deliver, receive, fulfill_order_locked,
}
use vpn_control_api.Billing.Subscriptions.{
  Target, choose_target, find_active_subscription_for_plan, get_latest_for_user, activate, extended,
  grant_subscription, days, period_days,
}
use vpn_control_api.Billing.Purchase.{post, auto_purchase}
use vpn_control_api.Referral.Service.{process_reward_if_eligible, get_pending_by_referred_user}
use vpn_control_api.Billing.Entry.{
  Webhook, get_by_external_id, process_webhook, refund_order, debit_balance,
}
use vpn_control_api.Billing.Ledger.{IsBalanced, total}
use vpn_control_api.Billing.History.{webhook, refund_request, debit, run, run-IsBalanced}
use vpn_control_api.Billing.Idempotence.{delivered_with, process_webhook_again}
use vpn_control_api.Billing.Refunds.{balance_of, refund_order_once}
use vpn_control_api.Billing.Rounding.{half_kopeck_debit}
use vpn_control_api.Billing.Debits.{debit_balance_rounds}
use vpn_control_api.Billing.Payments.{deliver_what_is_paid}
use vpn_control_api.Billing.Grants.{IsGranted, grant_subscription-IsGranted}
use vpn_control_api.Billing.Samples.{client, basic, current, bought, shop}

abbrev paid_now : Payment
paid_now = record {
  provider = freekassa;
  fee_rub = none;
  payment_method = none;
  now = 1000;
  referral = record { enabled = true; reward_rub = 100; referred_reward_rub = 50 };
  new_id = 9;
}

abbrev report : Webhook
report = record {
  external_id = 77;
  amount_rub = pos 20000;
  should_fulfill = true;
  canceled = false;
  payment = paid_now;
}

abbrev opening : ℕ → ℤ
opening id = if id == 1 then pos 5000 else pos 0

shop-IsBalanced : IsBalanced opening shop
unfolding IsBalanced total lookup ◌+ℤ◌
shop-IsBalanced id u found = ground arith

abbrev paid_shop : Db
paid_shop = session (process_webhook report shop)

run-IsBalanced_example :
    IsBalanced opening (run (webhook report ∷ refund_request 4 true ∷ debit 1 0 100 ∷ []) shop)
run-IsBalanced_example =
    run-IsBalanced opening (webhook report ∷ refund_request 4 true ∷ debit 1 0 100 ∷ []) shop
      (tt, (tt, (refl, tt))) shop-IsBalanced

-- The first report of the payment is answered without an error.
first_report : process_webhook report shop ≡ done paid_shop
unfolding process_webhook get_by_external_id fulfill_order_locked receive deliver post lookup modify
    auto_purchase grant_subscription choose_target find_active_subscription_for_plan activate
    complete process_reward_if_eligible get_pending_by_referred_user extended get_latest_for_user
    record_promo_activation ◌+ℤ◌
first_report = refl

-- The second report arrives later.
abbrev paid_later : Payment
paid_later = record paid_now { now = 9000; new_id = 17 }

process_webhook_again_example :
    process_webhook (delivered_with paid_later report) paid_shop ≡ done paid_shop
process_webhook_again_example = process_webhook_again report paid_later shop paid_shop first_report

deliver_what_is_paid_example :
    balance_of 1
      (session (deliver 1 paid_now 4 bought (receive 1 (pos 5000) paid_now 4 bought shop)))
    ≡ some (pos 5000)
unfolding lookup balance_of
deliver_what_is_paid_example =
    deliver_what_is_paid paid_now 4 bought 1 shop {u = client} refl (omega arith)

grant_subscription-IsGranted_example :
    (after : Db) × (grant_subscription 9 1 2 basic 4 bought 1000 shop ≡ done after)
    × IsGranted 1 4 (1000 + days (period_days 1)) shop after
unfolding lookup ◌+ℤ◌
grant_subscription-IsGranted_example =
    grant_subscription-IsGranted 9 1 2 basic 4 bought 1000 shop (refl, tt) refl (omega arith)
      (omega arith)

abbrev same_plan : Target
same_plan = record { id = 3; sub = current; plan_changed = false }

abbrev completed_order : PaymentOrder
completed_order = record bought { status = completed }

abbrev completed_shop : Db
completed_shop = record shop { orders = (4, completed_order) ∷ [] }

refund_order_once_example :
    (after : Db) × (refund_order 4 true completed_shop ≡ done after)
    × ((id : ℕ)
        → balance_of id after
          ≡ (if id == 1 then some (pos 5000 -ℤ pos 20000) else balance_of id completed_shop))
    × (lookup 4 after.orders ≡ some (record completed_order { status = refunded }))
    × ((again : Bool) → refund_order 4 again after ≡ raised refund_not_allowed after)
unfolding lookup
refund_order_once_example =
    refund_order_once 4 true completed_shop {o = completed_order} {u = client} refl refl refl

half_kopeck_debit_example :
    (after : Db) × (debit_balance 1 1 5 shop ≡ done after)
    × (lookup 1 after.users ≡ some client)
    × (total 1 after.transactions ≡ negsuc 0 +ℤ total 1 shop.transactions)
    × (¬ (IsBalanced opening after))
unfolding lookup
half_kopeck_debit_example =
    half_kopeck_debit opening 1 4999 shop {u = client} refl refl shop-IsBalanced

debit_balance_rounds_example :
    ((scale 1 (pos 5000) <ℤ pos 5) × (debit_balance 1 1 5 shop ≡ raised insufficient_balance shop))
    ⊎ ((after : Db) × (debit_balance 1 1 5 shop ≡ done after)
        × (exact stored : ℕ) × (scale 1 (pos 5000) ≡ pos (5 + exact))
        × (2 * (stored * 10 ^ 1) ≤ 2 * exact + 10 ^ 1)
        × (2 * exact ≤ 2 * (stored * 10 ^ 1) + 10 ^ 1)
        × ((id : ℕ)
            → balance_of id after ≡ (if id == 1 then some (pos stored) else balance_of id shop)))
unfolding lookup
debit_balance_rounds_example = debit_balance_rounds 1 1 5 shop {u = client} refl
