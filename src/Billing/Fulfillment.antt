-- ===== src/Billing/Fulfillment.antt =====
-- services/billing/service.py: the fulfilment of a paid order, by webhook or by the confirmation of
-- a Stars payment. A webhook comes here verified and parsed by its provider. Logs, metrics, messages
-- and the texts of `provider_meta` are left out.
use vpn_control_api.Base.{
  ℕ, suc, ◌+◌, ◌*◌, ◌/◌, ℤ, pos, negsuc, ◌+ℤ◌, ◌-ℤ◌, Bool, true, false, not, ◌&&◌, Option, none,
  some, List, [], ◌∷◌, ltb, ◌==◌, if◌then◌else◌,
}
use vpn_control_api.Base.Table.{lookup, modify}
use vpn_control_api.Store.{
  Db, PaymentOrder, OrderStatus, paid, completed, expired, refunded, failed, Provider, crypto,
  freekassa, stars, platega, balance, free, OrderType, plan_purchase, subscription_renewal,
  device_slots, PaymentProviderFee, payment, order_expired, fulfillment_failed, Run, done, raised,
  ◌then_run◌,
}
use vpn_control_api.Promo.Service.{record_activation}
use vpn_control_api.Referral.Service.{ReferralSettings, process_reward_if_eligible, is_free}
use vpn_control_api.Billing.Purchase.{post, auto_purchase, fulfill_device_slots}

-- `status in ORDER_FINAL_STATUSES`
abbrev pub is_final : OrderStatus → Bool
is_final paid = true
is_final completed = true
is_final refunded = true
is_final failed = true
is_final _ = false

abbrev pub is_expired : OrderStatus → Bool
is_expired expired = true
is_expired _ = false

abbrev pub update_order : ℕ → (PaymentOrder → PaymentOrder) → Db → Db
update_order order_id f db = record db { orders = modify order_id f db.orders }

-- Equality of providers.
unfoldable pub same_provider : Provider → Provider → Bool
same_provider crypto crypto = true
same_provider freekassa freekassa = true
same_provider stars stars = true
same_provider platega platega = true
same_provider balance balance = true
same_provider free free = true
same_provider _ _ = false

abbrev pub same_method : Option ℕ → Option ℕ → Bool
same_method none none = true
same_method (some a) (some b) = a == b
same_method _ _ = false

-- `ProviderFeeRepository.get_match`
unfoldable pub get_match : Provider → Option ℕ → List PaymentProviderFee → Option PaymentProviderFee
unfolding same_provider
get_match provider method [] = none
get_match provider method (f ∷ fs) =
    let rest = get_match provider method fs in
    if same_provider f.provider provider && same_method f.payment_method method
    then some f
    else rest

abbrev pub or_default :
    Option PaymentProviderFee → Option PaymentProviderFee → Option PaymentProviderFee
or_default none other = other
or_default (some f) other = some f

-- `ProviderFeeRepository.resolve`: the rule for the method, else the provider's default.
unfoldable pub resolve : Provider → Option ℕ → List PaymentProviderFee → Option PaymentProviderFee
unfolding get_match
resolve provider none fees = get_match provider none fees
resolve provider (some m) fees =
    or_default (get_match provider (some m) fees) (get_match provider none fees)

-- The fee on an amount, rounded half up, which for Decimal is away from zero.
abbrev pub fee_of : ℤ → ℕ → ℤ
fee_of (pos a) fee_percent = pos ((a * fee_percent + 500000) / 1000000)
fee_of (negsuc a) fee_percent = pos 0 -ℤ pos ((suc a * fee_percent + 500000) / 1000000)

abbrev pub rule_fee : ℤ → Option PaymentProviderFee → Option ℤ
rule_fee amount none = none
rule_fee amount (some rule) = some (fee_of amount rule.fee_percent)

-- `_resolve_fee_rub`
unfoldable pub resolve_fee_rub : Provider → Option ℕ → ℤ → Db → Option ℤ
unfolding resolve
resolve_fee_rub provider method amount db = rule_fee amount (resolve provider method db.fees)

abbrev pub set_or_keep {ℓ} : {A : Type ℓ} → Option A → Option A → Option A
set_or_keep none old = old
set_or_keep (some a) old = some a

abbrev pub net_of : ℤ → Option ℤ → Option ℤ
net_of amount none = none
net_of amount (some fee) = some (amount -ℤ fee)

-- The update to "paid", which leaves out the values that are None.
abbrev pub mark_paid : ℕ → Option ℤ → PaymentOrder → PaymentOrder
mark_paid now fee o = record o {
  status = paid;
  paid_at = some now;
  fee_rub = set_or_keep fee o.fee_rub;
  net_rub = set_or_keep (net_of o.amount_rub fee) o.net_rub;
}

abbrev pub mark_completed : ℕ → PaymentOrder → PaymentOrder
mark_completed now o = record o { status = completed; completed_at = some now }

abbrev pub activation_of : ℕ → PaymentOrder → Option ℕ → Option ℕ → Db → Db
activation_of order_id order (some promo_id) (some discount) db =
    record_activation
      (record {
        promo_code_id = promo_id;
        user_id = order.user_id;
        order_id = some order_id;
        amount_before = order.amount_rub +ℤ pos discount;
        discount_applied = discount;
        amount_after = order.amount_rub;
      })
      db
activation_of order_id order _ _ db = db

-- `_record_promo_activation`
unfoldable pub record_promo_activation : ℕ → PaymentOrder → Db → Db
record_promo_activation order_id order db =
    activation_of order_id order order.promo_code_id order.discount_rub db

-- What the caller of a fulfilment brings: the provider, the fee and method that it reported, the
-- time, the settings of the referral programme, and the identifier of a subscription to create.
pub record Payment : Type 0 where
  pub provider : Provider
  pub fee_rub : Option ℤ
  pub payment_method : Option ℕ
  pub now : ℕ
  pub referral : ReferralSettings
  pub new_id : ℕ

abbrev pub is_device_slots : OrderType → Bool
is_device_slots device_slots = true
is_device_slots _ = false

-- `if plan and plan.is_active and plan.price_rub > 0`
abbrev pub purchase_plan : ℕ → Payment → ℕ → PaymentOrder → Option ℕ → Db → Run
purchase_plan user_id p order_id order none db = done db
purchase_plan user_id p order_id order (some plan_id) db = elim (lookup plan_id db.plans) [
  | none ↦ done db
  | some plan ↦
      if plan.is_active && ltb 0 plan.price_rub
      then auto_purchase p.new_id user_id plan_id plan order_id order p.now false db
      else done db
]

-- What the order buys, once its amount is on the balance.
unfoldable pub deliver : ℕ → Payment → ℕ → PaymentOrder → Db → Run
deliver user_id p order_id order db =
    if is_device_slots order.order_type
    then fulfill_device_slots user_id order_id order false db
    else purchase_plan user_id p order_id order order.plan_id db

-- `order_type in ("plan_purchase", "subscription_renewal") and provider_name != "free"`
abbrev pub earns_reward : OrderType → Provider → Bool
earns_reward plan_purchase provider = not (is_free provider)
earns_reward subscription_renewal provider = not (is_free provider)
earns_reward _ provider = false

abbrev pub fee_of_payment : Payment → ℤ → Db → Option ℤ
fee_of_payment p amount db =
    set_or_keep p.fee_rub (resolve_fee_rub p.provider p.payment_method amount db)

-- The order is marked as paid and its amount credited.
unfoldable pub receive : ℕ → ℤ → Payment → ℕ → PaymentOrder → Db → Db
unfolding record_promo_activation
receive user_id old p order_id order db = record_promo_activation order_id order (
    post user_id old order.amount_rub payment (some order_id)
      (update_order order_id (mark_paid p.now (fee_of_payment p order.amount_rub db)) db))

-- The steps after the delivery: the order is completed, and a referral is rewarded.
unfoldable pub complete : Payment → ℕ → PaymentOrder → Db → Db
complete p order_id order db =
    let after = update_order order_id (mark_completed p.now) db in
    if earns_reward order.order_type p.provider
    then process_reward_if_eligible p.referral order.user_id p.now after
    else after

-- `_fulfill_order_locked`
unfoldable pub fulfill_order_locked : Payment → ℕ → PaymentOrder → Db → Run
unfolding receive deliver complete
fulfill_order_locked p order_id order db =
    if is_final order.status
    then done db
    else if is_expired order.status
    then raised order_expired db
    else elim (lookup order.user_id db.users) [
      | none ↦
          raised fulfillment_failed (update_order order_id (λ o. record o { status = failed }) db)
      | some user ↦
          deliver order.user_id p order_id order
            (receive order.user_id user.balance p order_id order db)
          then_run (λ delivered. done (complete p order_id order delivered))
    ]
