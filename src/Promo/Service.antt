-- ===== src/Promo/Service.antt =====
-- services/promo/service.py: validation and quoting, and the ledger of activations. The amount of a quote
-- is positive, and may have any number of decimal places (`PromoValidateIn`): it is counted in units of
-- which `10 ^ digits` make a hundredth of a rouble, as are the amounts that the quote returns. The
-- values of a code are hundredths and not negative. So all are natural numbers, and `-` stops at 0 where
-- the source takes the maximum with 0.
use vpn_control_api.Base.{
  ℕ, ◌+◌, ◌-◌, ◌*◌, ◌/◌, ◌^◌, Bool, true, false, not, ◌&&◌, ◌||◌, Option, none, some, List, [], ◌∷◌,
  min, ltb, leb, ◌==◌, if◌then◌else◌, Result, ok, err,
}
use vpn_control_api.Base.Table.{Table, modify}
use vpn_control_api.Store.{
  Db, Error, promo_invalid, promo_not_eligible, promo_exhausted, PromoCode, percent, fixed, all,
  no_subscription, has_subscription, by_plan, PromoAppliesTo, any, new_purchase, renewal, OrderType,
  plan_purchase, subscription_renewal, Subscription, PromoActivation,
}

-- `min(d, limit)` if there is a limit.
abbrev pub capped : Option ℕ → ℕ → ℕ
capped none d = d
capped (some limit) d = min d limit

-- `_compute_discount`. With the percentage in hundredths of a percent the exact discount in hundredths of
-- a rouble is the product over 10000 units; ROUND_HALF_UP adds half of that. A fixed discount is not
-- rounded.
unfoldable pub compute_discount : PromoCode → ℕ → ℕ → ℕ
compute_discount promo digits amount = elim promo.discount_type [
  | percent ↦
      capped promo.max_discount_rub
        ((amount * promo.discount_value + 5000 * 10 ^ digits) / (10000 * 10 ^ digits))
      * 10 ^ digits
  | fixed ↦ min (promo.discount_value * 10 ^ digits) amount
]

-- `expires_at is None or expires_at > now`
abbrev pub outlives : Option ℕ → ℕ → Bool
outlives none now = true
outlives (some t) now = ltb now t

-- An active subscription of the user that has not expired: a row of `list_by_user_id(user_id,
-- active_only=True)` that is live.
abbrev pub is_live_for : ℕ → ℕ → Subscription → Bool
is_live_for user_id now s = s.user_id == user_id && (s.is_active && outlives s.expires_at now)

unfoldable pub has_live : ℕ → ℕ → Table Subscription → Bool
has_live user_id now [] = false
has_live user_id now ((_, s) ∷ t) = is_live_for user_id now s || has_live user_id now t

unfoldable pub contains : ℕ → List ℕ → Bool
contains k [] = false
contains k (j ∷ js) = k == j || contains k js

unfoldable pub plan_allowed : Option ℕ → List ℕ → Bool
unfolding contains
plan_allowed none allowed = false
plan_allowed (some plan_id) allowed = contains plan_id allowed

-- `_check_audience`: true where it returns, false where it raises `PromoNotEligible`.
unfoldable pub check_audience : PromoCode → ℕ → Option ℕ → ℕ → Table Subscription → Bool
unfolding plan_allowed has_live
check_audience promo user_id plan_id now subs = elim promo.audience [
  | all ↦ true
  | by_plan ↦ plan_allowed plan_id promo.plan_ids
  | no_subscription ↦ not (has_live user_id now subs)
  | has_subscription ↦ has_live user_id now subs
]

-- `PromoCodeRepository.get_by_code`; the codes are compared in upper case.
unfoldable pub get_by_code : ℕ → Table PromoCode → Option (ℕ × PromoCode)
get_by_code code [] = none
get_by_code code ((id, p) ∷ t) =
    let rest = get_by_code code t in if p.code == code then some (id, p) else rest

-- `PromoActivationRepository.count_for_user`
unfoldable pub count_for_user : ℕ → ℕ → List PromoActivation → ℕ
count_for_user promo_id user_id [] = 0
count_for_user promo_id user_id (a ∷ as') =
    let rest = count_for_user promo_id user_id as' in
    if a.promo_code_id == promo_id && a.user_id == user_id then 1 + rest else rest

-- `PromoQuoteOut`
pub record PromoQuote : Type 0 where
  pub promo_code_id : ℕ
  pub digits : ℕ
  pub amount_before : ℕ
  pub discount_rub : ℕ
  pub amount_after : ℕ

abbrev pub is_before : ℕ → Option ℕ → Bool
is_before now none = false
is_before now (some start) = ltb now start

abbrev pub is_over : ℕ → Option ℕ → Bool
is_over now none = false
is_over now (some end) = leb end now

abbrev pub is_below : ℕ → ℕ → Option ℕ → Bool
is_below digits amount none = false
is_below digits amount (some least) = ltb amount (least * 10 ^ digits)

abbrev pub is_used_up : ℕ → Option ℕ → Bool
is_used_up count none = false
is_used_up count (some limit) = leb limit count

abbrev pub is_plan_purchase : OrderType → Bool
is_plan_purchase plan_purchase = true
is_plan_purchase _ = false

abbrev pub is_renewal : OrderType → Bool
is_renewal subscription_renewal = true
is_renewal _ = false

abbrev pub applies : PromoAppliesTo → OrderType → Bool
applies any order_type = true
applies new_purchase order_type = is_plan_purchase order_type
applies renewal order_type = is_renewal order_type

-- The chain of tests of `validate_and_quote`, once the code has been found.
unfoldable pub quote_found :
    ℕ → PromoCode → ℕ → Option ℕ → OrderType → ℕ → ℕ → ℕ → Db → Result Error PromoQuote
unfolding check_audience compute_discount count_for_user
quote_found id promo user_id plan_id order_type digits amount_rub now db =
    if not promo.is_active
    then err promo_invalid
    else if is_before now promo.starts_at
    then err promo_invalid
    else if is_over now promo.expires_at
    then err promo_invalid
    else if is_below digits amount_rub promo.min_amount_rub
    then err promo_invalid
    else if not (applies promo.applies_to order_type)
    then err promo_not_eligible
    else if not (check_audience promo user_id plan_id now db.subscriptions)
    then err promo_not_eligible
    else if is_used_up promo.activation_count promo.max_activations
    then err promo_exhausted
    else if leb promo.max_per_user (count_for_user id user_id db.activations)
    then err promo_exhausted
    else ok (record {
      promo_code_id = id;
      digits = digits;
      amount_before = amount_rub;
      discount_rub = compute_discount promo digits amount_rub;
      amount_after = amount_rub - compute_discount promo digits amount_rub;
    })

unfoldable pub validate_and_quote :
    ℕ → ℕ → Option ℕ → OrderType → ℕ → ℕ → ℕ → Db → Result Error PromoQuote
unfolding quote_found get_by_code
validate_and_quote code user_id plan_id order_type digits amount_rub now db =
    elim (get_by_code code db.promos) [
      | none ↦ err promo_invalid
      | some (id, promo) ↦ quote_found id promo user_id plan_id order_type digits amount_rub now db
    ]

-- `record_activation`, with `increment_activation`.
unfoldable pub record_activation : PromoActivation → Db → Db
record_activation a db = record db {
  activations = a ∷ db.activations;
  promos =
      modify a.promo_code_id (λ p. record p { activation_count = p.activation_count + 1 })
        db.promos;
}
