-- ===== src/Store/Rows.antt =====
-- The rows of the billing tables: services/billing/models.py, services/plans/models.py,
-- services/promo/models.py, services/referral/models.py, and the columns of the user, subscription
-- and key tables that billing reads or writes. Money is in hundredths of a rouble, a percentage of a
-- promo code in hundredths of a percent, a provider's fee in ten-thousandths of a percent; instants
-- are whole seconds. Identifiers, codes and other texts that are only compared are numbers.
use vpn_control_api.Base.{ℕ, ℤ, Bool, Option, List}

-- `User`
pub record User : Type 0 where
  pub balance : ℤ
  pub referral_code : Option ℕ

-- `PlanPeriod`
pub record PlanPeriod : Type 0 where
  pub months : ℕ
  pub price_rub : ℕ

-- `Plan`
pub record Plan : Type 0 where
  pub is_active : Bool
  pub price_rub : ℕ
  pub device_price_rub : ℕ
  pub included_devices : ℕ
  pub max_devices : ℕ
  pub duration_days : ℕ
  pub periods : List PlanPeriod

-- `Subscription`
pub record Subscription : Type 0 where
  pub user_id : ℕ
  pub plan_id : Option ℕ
  pub is_active : Bool
  pub expires_at : Option ℕ
  pub paid_device_slots : ℤ
  pub max_devices : Option ℤ
  pub period_months : ℕ

-- A VPN key, with the subscription that its device belongs to.
pub record Key : Type 0 where
  pub subscription_id : ℕ
  pub is_revoked : Bool
  pub valid_until : Option ℕ

-- `PaymentProviderEnum`
pub data Provider : Type 0 where
  crypto freekassa stars platega balance free : Provider

-- The statuses of an order: `OrderStatus`, and "failed", which only the service writes.
pub data OrderStatus : Type 0 where
  pending paid completed expired refunded failed : OrderStatus

-- `OrderTypeEnum`
pub data OrderType : Type 0 where
  plan_purchase subscription_renewal device_slots top_up : OrderType

-- `PaymentOrder`
pub record PaymentOrder : Type 0 where
  pub user_id : ℕ
  pub plan_id : Option ℕ
  pub amount_rub : ℤ
  pub provider : Provider
  pub status : OrderStatus
  pub external_id : ℕ
  pub paid_at : Option ℕ
  pub completed_at : Option ℕ
  pub expires_at : Option ℕ
  pub subscription_id : Option ℕ
  pub order_type : OrderType
  pub device_slots_qty : ℤ
  pub period_months : ℕ
  pub fee_rub : Option ℤ
  pub net_rub : Option ℤ
  pub promo_code_id : Option ℕ
  pub discount_rub : Option ℕ

-- `TransactionType`, and the two types that the referral service writes.
pub data TransactionType : Type 0 where
  payment purchase manual_credit manual_debit refund device_slot_purchase : TransactionType
  referral_reward referral_bonus : TransactionType

-- `BalanceTransaction`
pub record BalanceTransaction : Type 0 where
  pub user_id : ℕ
  pub amount : ℤ
  pub balance_after : ℤ
  pub type : TransactionType
  pub order_id : Option ℕ

-- `PaymentProviderFee`
pub record PaymentProviderFee : Type 0 where
  pub provider : Provider
  pub payment_method : Option ℕ
  pub fee_percent : ℕ

-- `DiscountType`, `PromoAudience`, `PromoAppliesTo`
pub data DiscountType : Type 0 where
  percent fixed : DiscountType

pub data PromoAudience : Type 0 where
  all no_subscription has_subscription by_plan : PromoAudience

pub data PromoAppliesTo : Type 0 where
  any new_purchase renewal : PromoAppliesTo

-- `PromoCode`
pub record PromoCode : Type 0 where
  pub code : ℕ
  pub discount_type : DiscountType
  pub discount_value : ℕ
  pub max_discount_rub : Option ℕ
  pub audience : PromoAudience
  pub plan_ids : List ℕ
  pub applies_to : PromoAppliesTo
  pub min_amount_rub : Option ℕ
  pub max_activations : Option ℕ
  pub max_per_user : ℕ
  pub starts_at : Option ℕ
  pub expires_at : Option ℕ
  pub activation_count : ℕ
  pub is_active : Bool

-- `PromoActivation`
pub record PromoActivation : Type 0 where
  pub promo_code_id : ℕ
  pub user_id : ℕ
  pub order_id : Option ℕ
  pub amount_before : ℤ
  pub discount_applied : ℕ
  pub amount_after : ℤ

-- The status of a `Referral`.
pub data ReferralStatus : Type 0 where
  pending rewarded : ReferralStatus

-- `Referral`
pub record Referral : Type 0 where
  pub referrer_user_id : ℕ
  pub referred_user_id : ℕ
  pub status : ReferralStatus
  pub reward_amount : ℕ
  pub referred_reward_amount : ℕ
  pub rewarded_at : Option ℕ
