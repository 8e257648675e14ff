-- ===== src/Referral/Tests.antt =====
-- The theorems on referrals at a concrete database.
use vpn_control_api.Base.{
  if◌then◌else◌, ℕ, ◌≡◌, ◌≢◌, refl, true, pos, none, some, [], ◌∷◌, ◌==◌, arith, ok,
}
use vpn_control_api.Store.{Db, ReferralStatus}
use vpn_control_api.Referral.Service.{
  ReferralSettings, process_reward_if_eligible, apply_referral, find_by_referral_code,
  get_by_referred_user,
}
use vpn_control_api.Referral.Rewards.{
  referred_count, IsSettled, process_reward_if_eligible-IsSettled, apply_referral_once,
}

abbrev members : Db
members = record {
  users =
      (1, record { balance = pos 0; referral_code = some 40 })
      ∷ (2, record { balance = pos 0; referral_code = none })
      ∷ [];
  plans = [];
  subscriptions = [];
  keys = [];
  orders = [];
  transactions = [];
  fees = [];
  promos = [];
  activations = [];
  referrals = [];
}

abbrev programme : ReferralSettings
programme = record { enabled = true; reward_rub = 100; referred_reward_rub = 50 }

abbrev referred : Db
referred = record members {
  referrals =
      (
        3,
        record {
          referrer_user_id = 1;
          referred_user_id = 2;
          status = ReferralStatus.pending;
          reward_amount = 0;
          referred_reward_amount = 0;
          rewarded_at = none;
        },
      )
      ∷ [];
}

applied : apply_referral programme 3 2 40 members ≡ ok referred
unfolding apply_referral find_by_referral_code get_by_referred_user
applied = refl

apply_referral_once_example :
    (referred_count 2 members.referrals ≡ 0)
    × ((other : ℕ)
        → referred_count other referred.referrals
          ≡ (if other == 2 then 1 else referred_count other members.referrals))
    × ((id other_code : ℕ) (again : Db)
        → apply_referral programme id 2 other_code referred ≢ ok again)
apply_referral_once_example =
    apply_referral_once programme 3 2 40 members {after = referred} applied

process_reward_if_eligible-IsSettled_example :
    IsSettled programme 2 (process_reward_if_eligible programme 2 1000 referred)
unfolding referred_count
process_reward_if_eligible-IsSettled_example =
    process_reward_if_eligible-IsSettled programme 2 1000 referred (omega arith)
