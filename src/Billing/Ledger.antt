-- ===== src/Billing/Ledger.antt =====
-- The balance of every user against the recorded transactions, under every call of
-- services/billing/service.py and services/referral/service.py that moves money.
use vpn_control_api.Base.{
  ℕ, ◌≡◌, refl, ℤ, pos, ◌+ℤ◌, ◌-ℤ◌, ltb_ℤ, Bool, true, false, not, Option, none, some, List, [],
  ◌∷◌, ltb, ◌==◌, if◌then◌else◌, arith, int_laws, Option-cases, Bool-cases, inl, inr, if_both,
  option_split, ==_iff,
}
use vpn_control_api.Base.Table.{lookup, lookup-modify}
use vpn_control_api.Store.{
  Db, User, PaymentOrder, Plan, Subscription, TransactionType, BalanceTransaction, referral_reward,
  referral_bonus, purchase, device_slot_purchase, session, Referral,
}
use vpn_control_api.Referral.Service.{
  ReferralSettings, process_reward_if_eligible, credit_user, pay_reward, credit_if_positive,
  get_pending_by_referred_user, count_paid_orders,
}
use vpn_control_api.Billing.Subscriptions.{create_subscription, activate, grant_subscription}
use vpn_control_api.Billing.Purchase.{
  add_slots, not_covered, post, set_balance, auto_purchase, fulfill_device_slots,
}

-- The sum of a user's transactions.
unfoldable pub total : ℕ → List BalanceTransaction → ℤ
total user_id [] = pos 0
total user_id (t ∷ ts) =
    let rest = total user_id ts in if t.user_id == user_id then t.amount +ℤ rest else rest

regroup : (o t a : ℤ) → o +ℤ t +ℤ a ≡ o +ℤ (a +ℤ t)
regroup o t a = omega int_laws

module _ (opening : ℕ → ℤ) where
  -- Every user's balance is an opening balance and the sum of the user's transactions.
  unfoldable pub IsBalanced : Db → Type 0
  IsBalanced db =
      (id : ℕ) (u : User)
      → lookup id db.users ≡ some u
      → u.balance ≡ opening id +ℤ total id db.transactions

  pub post-IsBalanced :
      (user_id : ℕ) (amount : ℤ) (type : TransactionType) (order_id : Option ℕ) (db : Db) {u : User}
      → lookup user_id db.users ≡ some u
      → IsBalanced db
      → IsBalanced (post user_id u.balance amount type order_id db)
  unfolding IsBalanced post total
  post-IsBalanced user_id amount type order_id db {u} found h id v e =
      elim (Bool-cases (user_id == id)) [
        | inl same ↦ ground (
          arith,
          h id u,
          ==_iff user_id id,
          ==_iff id user_id,
          lookup-modify id user_id (set_balance (u.balance +ℤ amount)) db.users,
          regroup (opening id) (total id db.transactions) amount,
        )
        | inr other ↦ ground (
          arith,
          h id v,
          ==_iff user_id id,
          ==_iff id user_id,
          lookup-modify id user_id (set_balance (u.balance +ℤ amount)) db.users,
        )
      ]

  -- Only the users and the transactions matter.
  pub frame-IsBalanced :
      (a b : Db) → b.users ≡ a.users → b.transactions ≡ a.transactions → IsBalanced a → IsBalanced b
  unfolding IsBalanced
  frame-IsBalanced a b same_users same_transactions h id u e =
      rw same_transactions (h id u (rw same_users at e))

  pub credit_user-IsBalanced :
      (user_id amount : ℕ) (type : TransactionType) (db : Db)
      → IsBalanced db
      → IsBalanced (credit_user user_id amount type db)
  unfolding credit_user
  credit_user-IsBalanced user_id amount type db h = elim (Option-cases (lookup user_id db.users)) [
    | inl missing ↦ rw (missing, credit_user) h
    | inr (u, found) ↦
        rw (found, credit_user) (post-IsBalanced user_id (pos amount) type none db found h)
  ]

  credit_if_positive-IsBalanced :
      (user_id amount : ℕ) (type : TransactionType) (db : Db)
      → IsBalanced db
      → IsBalanced (credit_if_positive user_id amount type db)
  credit_if_positive-IsBalanced user_id amount type db h =
      ground (arith, credit_user-IsBalanced user_id amount type db h)

  pay_reward-IsBalanced :
      (settings : ReferralSettings) (now id : ℕ) (r : Referral) (db : Db)
      → IsBalanced db
      → IsBalanced (pay_reward settings now id r db)
  unfolding pay_reward
  pay_reward-IsBalanced settings now id r db h =
      let one =
        credit_if_positive-IsBalanced r.referrer_user_id settings.reward_rub referral_reward db h in
      frame-IsBalanced _ _ refl refl (
        credit_if_positive-IsBalanced r.referred_user_id settings.referred_reward_rub referral_bonus
          _ one)

  pub process_reward-IsBalanced :
      (settings : ReferralSettings) (user_id now : ℕ) (db : Db)
      → IsBalanced db
      → IsBalanced (process_reward_if_eligible settings user_id now db)
  unfolding process_reward_if_eligible
  process_reward-IsBalanced settings user_id now db h =
      if_both IsBalanced (not settings.enabled) h
        (elim (Option-cases (get_pending_by_referred_user user_id db.referrals)) [
          | inl e ↦ rw e h
          | inr ((id, r), e) ↦ rw e (
              if_both IsBalanced (ltb 1 (count_paid_orders user_id db.orders)) h
                (pay_reward-IsBalanced settings now id r db h))
        ])

  create_subscription-IsBalanced :
      (new_id : ℕ) (sub : Subscription) (max_devices : ℤ) (db : Db)
      → IsBalanced db
      → IsBalanced (session (create_subscription new_id sub max_devices db))
  unfolding create_subscription
  create_subscription-IsBalanced new_id sub max_devices db h =
      frame-IsBalanced db _ (ground arith) (ground arith) h

  grant_subscription-IsBalanced :
      (new_id user_id plan_id : ℕ) (plan : Plan) (order_id : ℕ) (order : PaymentOrder) (now : ℕ)
      (db : Db)
      → IsBalanced db
      → IsBalanced (session (grant_subscription new_id user_id plan_id plan order_id order now db))
  unfolding grant_subscription activate create_subscription
  grant_subscription-IsBalanced new_id user_id plan_id plan order_id order now db h =
      frame-IsBalanced db _ (ground arith) (ground arith) h

  pub auto_purchase-IsBalanced :
      (new_id user_id plan_id : ℕ) (plan : Plan) (order_id : ℕ) (order : PaymentOrder) (now : ℕ)
      (strict : Bool) (db : Db)
      → IsBalanced db
      → IsBalanced
          (session (auto_purchase new_id user_id plan_id plan order_id order now strict db))
  unfolding auto_purchase
  auto_purchase-IsBalanced new_id user_id plan_id plan order_id order now strict db h =
      elim (Option-cases (lookup user_id db.users)) [
        | inl missing ↦ ground arith
        | inr (u, found) ↦ ground (
          arith,
          grant_subscription-IsBalanced new_id user_id plan_id plan order_id order now _ (
              post-IsBalanced user_id (pos 0 -ℤ order.amount_rub) purchase (some order_id) db found
                h),
        )
      ]

  add_slots-IsBalanced :
      (sub_id : Option ℕ) (qty : ℤ) (db : Db) → IsBalanced db → IsBalanced (add_slots sub_id qty db)
  add_slots-IsBalanced none qty db h = h
  add_slots-IsBalanced (some id) qty db h = frame-IsBalanced db _ refl refl h

  not_covered-IsBalanced :
      (strict : Bool) (db : Db) → IsBalanced db → IsBalanced (session (not_covered strict db))
  not_covered-IsBalanced true db h = h
  not_covered-IsBalanced false db h = h

  pub fulfill_device_slots-IsBalanced :
      (user_id order_id : ℕ) (order : PaymentOrder) (strict : Bool) (db : Db)
      → IsBalanced db
      → IsBalanced (session (fulfill_device_slots user_id order_id order strict db))
  unfolding fulfill_device_slots
  fulfill_device_slots-IsBalanced user_id order_id order strict db h =
      option_split (λ r. IsBalanced (session r)) (lookup user_id db.users)
        (λ missing. not_covered-IsBalanced strict db h)
        λ u found.
          if_both (λ r. IsBalanced (session r)) (ltb_ℤ u.balance order.amount_rub)
            (not_covered-IsBalanced strict db h)
            (add_slots-IsBalanced order.subscription_id order.device_slots_qty _ (
              post-IsBalanced user_id (pos 0 -ℤ order.amount_rub) device_slot_purchase
                (some order_id) db found h))
