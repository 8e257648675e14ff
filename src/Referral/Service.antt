-- ===== src/Referral/Service.antt =====
-- services/referral/service.py: applying a code, and the reward after the first paid order. Logs,
-- metrics and the message to the referrer are left out.
use vpn_control_api.Base.{
  ℕ, ◌+◌, pos, Bool, true, false, not, ◌&&◌, Option, none, some, [], ◌∷◌, ltb, ◌==◌, is_id,
  if◌then◌else◌, Result, ok, err,
}
use vpn_control_api.Base.Table.{Table, lookup, modify}
use vpn_control_api.Store.{
  Db, User, PaymentOrder, OrderStatus, paid, completed, Provider, free, OrderType, top_up,
  TransactionType, referral_reward, referral_bonus, Referral, ReferralStatus, Error,
  referral_not_enabled, referral_code_not_found, self_referral_not_allowed, already_referred,
  create,
}
use vpn_control_api.Billing.Purchase.{post}

-- The settings of the programme, in hundredths of a rouble.
pub record ReferralSettings : Type 0 where
  pub enabled : Bool
  pub reward_rub : ℕ
  pub referred_reward_rub : ℕ

-- The user who owns a referral code; the column is unique.
unfoldable pub find_by_referral_code : ℕ → Table User → Option ℕ
find_by_referral_code code [] = none
find_by_referral_code code ((id, u) ∷ t) =
    let rest = find_by_referral_code code t in if is_id u.referral_code code then some id else rest

-- `ReferralRepository.get_by_referred_user`; the column is unique.
unfoldable pub get_by_referred_user : ℕ → Table Referral → Option (ℕ × Referral)
get_by_referred_user user_id [] = none
get_by_referred_user user_id ((id, r) ∷ t) =
    let rest = get_by_referred_user user_id t in
    if r.referred_user_id == user_id then some (id, r) else rest

abbrev pub is_pending : ReferralStatus → Bool
is_pending ReferralStatus.pending = true
is_pending ReferralStatus.rewarded = false

-- `ReferralRepository.get_pending_by_referred_user`
unfoldable pub get_pending_by_referred_user : ℕ → Table Referral → Option (ℕ × Referral)
get_pending_by_referred_user user_id [] = none
get_pending_by_referred_user user_id ((id, r) ∷ t) =
    let rest = get_pending_by_referred_user user_id t in
    if r.referred_user_id == user_id && is_pending r.status then some (id, r) else rest

-- `apply_referral`
unfoldable pub apply_referral : ReferralSettings → ℕ → ℕ → ℕ → Db → Result Error Db
apply_referral settings new_id referred_id code db =
    if not settings.enabled
    then err referral_not_enabled
    else elim (find_by_referral_code code db.users) [
      | none ↦ err referral_code_not_found
      | some referrer_id ↦
          if referrer_id == referred_id
          then err self_referral_not_allowed
          else elim (get_by_referred_user referred_id db.referrals) [
            | some _ ↦ err already_referred
            | none ↦ ok (record db {
              referrals =
                  create new_id
                    (record {
                      referrer_user_id = referrer_id;
                      referred_user_id = referred_id;
                      status = ReferralStatus.pending;
                      reward_amount = 0;
                      referred_reward_amount = 0;
                      rewarded_at = none;
                    })
                    db.referrals;
            })
          ]
    ]

abbrev pub is_paid : OrderStatus → Bool
is_paid paid = true
is_paid completed = true
is_paid _ = false

abbrev pub is_free : Provider → Bool
is_free free = true
is_free _ = false

abbrev pub is_top_up : OrderType → Bool
is_top_up top_up = true
is_top_up _ = false

-- The paid orders of the user that are neither free nor top-ups.
abbrev pub counts_as_paid : ℕ → PaymentOrder → Bool
counts_as_paid user_id o =
    o.user_id == user_id
    && (is_paid o.status && (not (is_free o.provider) && not (is_top_up o.order_type)))

unfoldable pub count_paid_orders : ℕ → Table PaymentOrder → ℕ
count_paid_orders user_id [] = 0
count_paid_orders user_id ((_, o) ∷ t) =
    let rest = count_paid_orders user_id t in if counts_as_paid user_id o then 1 + rest else rest

-- `_credit_user`
unfoldable pub credit_user : ℕ → ℕ → TransactionType → Db → Db
credit_user user_id amount type db = elim (lookup user_id db.users) [
  | none ↦ db
  | some user ↦ post user_id user.balance (pos amount) type none db
]

abbrev pub credit_if_positive : ℕ → ℕ → TransactionType → Db → Db
credit_if_positive user_id amount type db =
    if ltb 0 amount then credit_user user_id amount type db else db

abbrev pub mark_rewarded : ReferralSettings → ℕ → Referral → Referral
mark_rewarded settings now r = record r {
  status = ReferralStatus.rewarded;
  reward_amount = settings.reward_rub;
  referred_reward_amount = settings.referred_reward_rub;
  rewarded_at = some now;
}

unfoldable pub pay_reward : ReferralSettings → ℕ → ℕ → Referral → Db → Db
unfolding credit_user
pay_reward settings now referral_id referral db =
    let credited =
      credit_if_positive referral.referred_user_id settings.referred_reward_rub referral_bonus
        (credit_if_positive referral.referrer_user_id settings.reward_rub referral_reward db) in
    record credited {
      referrals = modify referral_id (mark_rewarded settings now) credited.referrals;
    }

-- `process_reward_if_eligible`
unfoldable pub process_reward_if_eligible : ReferralSettings → ℕ → ℕ → Db → Db
unfolding pay_reward get_pending_by_referred_user count_paid_orders
process_reward_if_eligible settings user_id now db =
    if not settings.enabled then db else elim (get_pending_by_referred_user user_id db.referrals) [
      | none ↦ db
      | some (id, referral) ↦
          if ltb 1 (count_paid_orders user_id db.orders)
          then db
          else pay_reward settings now id referral db
    ]
