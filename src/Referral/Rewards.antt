-- ===== src/Referral/Rewards.antt =====
-- A referral is applied once and rewarded once.
use vpn_control_api.Base.{
  ℕ, ◌+◌, ◌≤◌, ◌≡◌, ◌≢◌, refl, true, false, not, ◌&&◌, none, some, [], ◌∷◌, ltb, ◌==◌,
  if◌then◌else◌, arith, Bool-cases, Option-cases, inl, inr, if_split, option_split, ok, ==_iff,
  ==_refl, ap, ◌∙◌,
}
use vpn_control_api.Base.Table.{Table, modify}
use vpn_control_api.Store.{
  Db, Referral, ReferralStatus, TransactionType, referral_reward, referral_bonus, create,
}
use vpn_control_api.Billing.Purchase.{post}
use vpn_control_api.Referral.Service.{
  ReferralSettings, is_pending, get_pending_by_referred_user, get_by_referred_user,
  count_paid_orders, mark_rewarded, pay_reward, credit_user, credit_if_positive,
  process_reward_if_eligible, apply_referral, find_by_referral_code,
}

-- How many referrals a user has been referred by; the column is unique.
unfoldable pub referred_count : ℕ → Table Referral → ℕ
referred_count user_id [] = 0
referred_count user_id ((id, r) ∷ t) =
    let rest = referred_count user_id t in if r.referred_user_id == user_id then 1 + rest else rest

none-pending :
    (user_id : ℕ) (t : Table Referral)
    → referred_count user_id t ≡ 0
    → get_pending_by_referred_user user_id t ≡ none
unfolding referred_count get_pending_by_referred_user
none-pending user_id [] e = refl
none-pending user_id ((i, x) ∷ t) e = ground (arith, none-pending user_id t)

referred_count-modify :
    (user_id k : ℕ) (settings : ReferralSettings) (now : ℕ) (t : Table Referral)
    → referred_count user_id (modify k (mark_rewarded settings now) t) ≡ referred_count user_id t
unfolding referred_count modify
referred_count-modify user_id k settings now [] = refl
referred_count-modify user_id k settings now ((i, x) ∷ t) =
    ground (arith, referred_count-modify user_id k settings now t)

rewarded-pending :
    (user_id id : ℕ) (settings : ReferralSettings) (now : ℕ) (t : Table Referral) {r : Referral}
    → referred_count user_id t ≤ 1
    → get_pending_by_referred_user user_id t ≡ some (id, r)
    → get_pending_by_referred_user user_id (modify id (mark_rewarded settings now) t) ≡ none
unfolding referred_count get_pending_by_referred_user modify
rewarded-pending user_id id settings now [] least e = ground arith
rewarded-pending user_id id settings now ((i, x) ∷ t) {r} least e =
    elim (Bool-cases (x.referred_user_id == user_id && is_pending x.status)) [
      | inl here ↦ ground (
        arith,
        ==_refl i,
        referred_count-modify user_id id settings now t,
        none-pending user_id (modify id (mark_rewarded settings now) t),
      )
      | inr there ↦ ground (arith, rewarded-pending user_id id settings now t {r = r})
    ]

-- Another call for the user changes nothing.
unfoldable pub IsSettled : ReferralSettings → ℕ → Db → Type 0
IsSettled settings user_id db = (now : ℕ) → process_reward_if_eligible settings user_id now db ≡ db

credited-referrals :
    (user_id amount : ℕ) (type : TransactionType) (db : Db)
    → (credit_if_positive user_id amount type db).referrals ≡ db.referrals
unfolding credit_user post
credited-referrals user_id amount type db = ground arith

pay_reward-referrals :
    (settings : ReferralSettings) (now id : ℕ) (r : Referral) (db : Db)
    → (pay_reward settings now id r db).referrals
      ≡ modify id (mark_rewarded settings now) db.referrals
unfolding pay_reward
pay_reward-referrals settings now id r db = ap (modify id (mark_rewarded settings now)) (
    credited-referrals r.referred_user_id settings.referred_reward_rub referral_bonus
      (credit_if_positive r.referrer_user_id settings.reward_rub referral_reward db)
    ∙ credited-referrals r.referrer_user_id settings.reward_rub referral_reward db)

none-IsSettled :
    (settings : ReferralSettings) (user_id : ℕ) (db : Db)
    → get_pending_by_referred_user user_id db.referrals ≡ none
    → IsSettled settings user_id db
unfolding IsSettled process_reward_if_eligible
none-IsSettled settings user_id db none_left now = ground arith

disabled-IsSettled :
    (settings : ReferralSettings) (user_id : ℕ) (db : Db)
    → settings.enabled ≡ false
    → IsSettled settings user_id db
unfolding IsSettled process_reward_if_eligible
disabled-IsSettled settings user_id db off now = ground arith

later-IsSettled :
    (settings : ReferralSettings) (user_id : ℕ) (db : Db)
    → ltb 1 (count_paid_orders user_id db.orders) ≡ true
    → IsSettled settings user_id db
unfolding IsSettled process_reward_if_eligible
later-IsSettled settings user_id db later now = ground arith

-- Where a user has at most one referral, the reward is paid at most once: after a call for the user,
-- whatever it did, every further call for the same user changes nothing.
pub process_reward_if_eligible-IsSettled :
    (settings : ReferralSettings) (user_id now : ℕ) (db : Db)
    → referred_count user_id db.referrals ≤ 1
    → IsSettled settings user_id (process_reward_if_eligible settings user_id now db)
unfolding process_reward_if_eligible
process_reward_if_eligible-IsSettled settings user_id now db least =
    if_split (IsSettled settings user_id) (not settings.enabled)
      (λ off. disabled-IsSettled settings user_id db (ground arith))
      λ enabled.
        option_split (IsSettled settings user_id)
          (get_pending_by_referred_user user_id db.referrals) (none-IsSettled settings user_id db)
          λ (id, r) found.
            if_split (IsSettled settings user_id) (ltb 1 (count_paid_orders user_id db.orders))
              (later-IsSettled settings user_id db)
              λ first. none-IsSettled settings user_id (pay_reward settings now id r db) (
                ap (get_pending_by_referred_user user_id)
                  (pay_reward-referrals settings now id r db)
                ∙ rewarded-pending user_id id settings now db.referrals least found)

none-referred :
    (user_id : ℕ) (t : Table Referral)
    → get_by_referred_user user_id t ≡ none
    → referred_count user_id t ≡ 0
unfolding referred_count get_by_referred_user
none-referred user_id [] e = refl
none-referred user_id ((i, x) ∷ t) e = ground (arith, none-referred user_id t)

referred_count-create :
    (user_id id : ℕ) (r : Referral) (t : Table Referral)
    → referred_count user_id (create id r t) ≡ (
        if r.referred_user_id == user_id
        then referred_count user_id t + 1
        else referred_count user_id t)
unfolding referred_count
referred_count-create user_id id r [] = ground arith
referred_count-create user_id id r ((i, x) ∷ t) =
    ground (arith, referred_count-create user_id id r t)

apply_referral-inv :
    (settings : ReferralSettings) (new_id referred_id code : ℕ) (db : Db) {after : Db}
    → apply_referral settings new_id referred_id code db ≡ ok after
    → (get_by_referred_user referred_id db.referrals ≡ none)
      × (r : Referral) × (r.referred_user_id ≡ referred_id)
      × ((r.referrer_user_id == referred_id) ≡ false)
      × (after.referrals ≡ create new_id r db.referrals)
unfolding apply_referral
apply_referral-inv settings new_id referred_id code db {after} e =
    elim (Option-cases (find_by_referral_code code db.users)) [
      | inl missing ↦ ground arith
      | inr (referrer_id, found) ↦
          elim (Option-cases (get_by_referred_user referred_id db.referrals)) [
            | inl none_before ↦ (
              none_before,
              record {
                referrer_user_id = referrer_id;
                referred_user_id = referred_id;
                status = ReferralStatus.pending;
                reward_amount = 0;
                referred_reward_amount = 0;
                rewarded_at = none;
              },
              refl,
              ground arith,
              ground arith,
            )
            | inr (row, there) ↦ ground arith
          ]
    ]

-- A referral that is applied is the user's only one: the user had none before and has one after, and the
-- number of referrals of every other user stays. Any further application for the user is refused.
pub apply_referral_once :
    (settings : ReferralSettings) (new_id referred_id code : ℕ) (db : Db) {after : Db}
    → apply_referral settings new_id referred_id code db ≡ ok after
    → (referred_count referred_id db.referrals ≡ 0)
      × ((other : ℕ)
          → referred_count other after.referrals
            ≡ (if other == referred_id then 1 else referred_count other db.referrals))
      × ((id other_code : ℕ) (again : Db)
          → apply_referral settings id referred_id other_code after ≢ ok again)
apply_referral_once settings new_id referred_id code db {after} e =
    let (none_before, r, owner, other_user, made) =
      apply_referral-inv settings new_id referred_id code db e in
    let before = none-referred referred_id db.referrals none_before in
    let counts : (other : ℕ)
        → referred_count other after.referrals
          ≡ (if other == referred_id then 1 else referred_count other db.referrals) =
      λ other. ground (
        arith,
        referred_count-create other new_id r db.referrals,
        ==_iff other referred_id,
        ==_iff referred_id other,
      ) in
    (
      before,
      counts,
      λ id other_code again e2.
          let none_after = (apply_referral-inv settings id referred_id other_code after e2).0 in
          ground (
            arith,
            none-referred referred_id after.referrals,
            counts referred_id,
            ==_refl referred_id,
          ),
    )
