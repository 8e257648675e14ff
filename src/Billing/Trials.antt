-- ===== src/Billing/Trials.antt =====
-- Free plans.
use vpn_control_api.Base.{ℕ, ◌≡◌, arith}
use vpn_control_api.Store.{Db, Plan, session}
use vpn_control_api.Billing.Subscriptions.{create_subscription}
use vpn_control_api.Billing.Checkout.{Fresh}
use vpn_control_api.Billing.PlanCheckout.{auto_purchase_free, create_free_order}

-- A free order, on every branch, moves no money: it leaves the users' rows and the transactions, and it
-- changes no promo code and no referral.
create_free_order-moves_no_money :
    (fresh : Fresh) (user_id plan_id : ℕ) (plan : Plan) (now : ℕ) (db : Db)
    → let after = session (create_free_order fresh user_id plan_id plan now db) in
      (after.users ≡ db.users)
      × (after.transactions ≡ db.transactions)
      × (after.promos ≡ db.promos)
      × (after.referrals ≡ db.referrals)
unfolding create_free_order auto_purchase_free create_subscription
create_free_order-moves_no_money fresh user_id plan_id plan now db = ground arith
