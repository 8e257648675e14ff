-- ===== src/Promo/Quote.antt =====
-- What a quote of services/promo/service.py promises.
use vpn_control_api.Base.{
  ℕ, ◌↔◌, ◌+◌, ◌-◌, ◌*◌, ◌/◌, ◌≤◌, ◌<◌, ◌≡◌, true, false, Option, some, ok, arith, Option-cases,
  inl, inr,
}
use vpn_control_api.Base.{◌&&◌, ◌==◌, count, ◌^◌}
use vpn_control_api.Store.{Db, PromoCode, percent, OrderType, PromoActivation}
use vpn_control_api.Promo.Service.{
  compute_discount, check_audience, count_for_user, PromoQuote, applies, is_before, is_over,
  is_below, is_used_up, quote_found, validate_and_quote, get_by_code,
}
use native.Mathlib.Nat.{div-mul-le_self}
use vpn_control_api.Promo.Service.{capped}
use vpn_control_api.Promo.Audience.{
  IsEligible, AppliesTo, applies_iff, check_audience_iff, count_for_user-count,
}

-- What the validators of the schema ask of a code's value.
abbrev pub HasFairValue : PromoCode → Type 0
HasFairValue p = p.discount_type ≡ percent → p.discount_value ≤ 10000

percent_le : (a v : ℕ) → v ≤ 10000 → (a * v + 5000) / 10000 ≤ a
percent_le a v h = let le : a * v ≤ a * 10000 = grind arith in omega arith

-- A code whose percentage is at most 100 never takes off more than an amount of whole kopecks.
pub compute_discount-le :
    (p : PromoCode) (amount : ℕ) → HasFairValue p → compute_discount p 0 amount ≤ amount
unfolding compute_discount
compute_discount-le p amount fair = ground (arith, percent_le amount p.discount_value)

-- Of two amounts of whole kopecks, the larger one never gets the smaller discount from the same code.
pub compute_discount_mono :
    (p : PromoCode) (a b : ℕ) → a ≤ b → compute_discount p 0 a ≤ compute_discount p 0 b
unfolding compute_discount
compute_discount_mono p a b h =
    let le : a * p.discount_value ≤ b * p.discount_value = grind arith in ground arith

-- What a quote of an amount rests on; `10 ^ digits` units of the amount are a kopeck.
pub record IsQuotable (id : ℕ) (p : PromoCode) (user_id : ℕ) (plan_id : Option ℕ)
    (order_type : OrderType) (digits amount now : ℕ) (db : Db) : Type 0 where
  pub active : p.is_active ≡ true
  pub started : (start : ℕ) → p.starts_at ≡ some start → start ≤ now
  pub running : (end : ℕ) → p.expires_at ≡ some end → now < end
  pub enough : (least : ℕ) → p.min_amount_rub ≡ some least → least * 10 ^ digits ≤ amount
  pub applicable : AppliesTo p.applies_to order_type
  pub eligible : IsEligible p.audience p.plan_ids user_id plan_id now db.subscriptions
  pub left : (limit : ℕ) → p.max_activations ≡ some limit → p.activation_count < limit
  pub left_for_user :
      count (λ (a : PromoActivation). a.promo_code_id == id && a.user_id == user_id) db.activations
      < p.max_per_user

-- The quote that a code gives on an amount.
abbrev pub quote_of : ℕ → PromoCode → ℕ → ℕ → PromoQuote
quote_of id p digits amount = record {
  promo_code_id = id;
  digits = digits;
  amount_before = amount;
  discount_rub = compute_discount p digits amount;
  amount_after = amount - compute_discount p digits amount;
}

module _ (id : ℕ) (p : PromoCode) (user_id : ℕ) (plan_id : Option ℕ) (order_type : OrderType)
    (digits amount now : ℕ) (db : Db) where
  -- The tests of the chain that let a quote through.
  record Passes : Type 0 where
    active : p.is_active ≡ true
    started : is_before now p.starts_at ≡ false
    running : is_over now p.expires_at ≡ false
    enough : is_below digits amount p.min_amount_rub ≡ false
    applicable : applies p.applies_to order_type ≡ true
    eligible : check_audience p user_id plan_id now db.subscriptions ≡ true
    left : is_used_up p.activation_count p.max_activations ≡ false
    left_for_user : count_for_user id user_id db.activations < p.max_per_user

  quote_found-inv :
      {q : PromoQuote}
      → quote_found id p user_id plan_id order_type digits amount now db ≡ ok q
      → Passes × (q ≡ quote_of id p digits amount)
  unfolding quote_found
  quote_found-inv e = ground arith

  quote_found_ok :
      Passes
      → quote_found id p user_id plan_id order_type digits amount now db
        ≡ ok (quote_of id p digits amount)
  unfolding quote_found
  quote_found_ok h = ground arith

  passes-IsQuotable : Passes → IsQuotable id p user_id plan_id order_type digits amount now db
  passes-IsQuotable h = record {
    active = h.active;
    started = λ start e. ground (arith, h.started);
    running = λ end e. ground (arith, h.running);
    enough = λ least e. ground (arith, h.enough);
    applicable = (applies_iff p.applies_to order_type).0 h.applicable;
    eligible = (check_audience_iff p user_id plan_id now db.subscriptions).0 h.eligible;
    left = λ limit e. ground (arith, h.left);
    left_for_user = ground (arith, count_for_user-count id user_id db.activations, h.left_for_user);
  }

  passes_of_quotable : IsQuotable id p user_id plan_id order_type digits amount now db → Passes
  passes_of_quotable h = record {
    active = h.active;
    started = elim (Option-cases p.starts_at) [
      | inl e ↦ ground arith
      | inr (t, e) ↦ ground (arith, h.started t e)
    ];
    running = elim (Option-cases p.expires_at) [
      | inl e ↦ ground arith
      | inr (t, e) ↦ ground (arith, h.running t e)
    ];
    enough = elim (Option-cases p.min_amount_rub) [
      | inl e ↦ ground arith
      | inr (t, e) ↦ ground (arith, h.enough t e)
    ];
    applicable = (applies_iff p.applies_to order_type).1 h.applicable;
    eligible = (check_audience_iff p user_id plan_id now db.subscriptions).1 h.eligible;
    left = elim (Option-cases p.max_activations) [
      | inl e ↦ ground arith
      | inr (t, e) ↦ ground (arith, h.left t e)
    ];
    left_for_user = ground (arith, count_for_user-count id user_id db.activations, h.left_for_user);
  }

-- A quote is given exactly when the code is found, active, started, not over, its minimum met, applicable to the type of
-- the order (any, purchases of a plan, or renewals), open to the user (to all, for a listed plan, or with or without an
-- active subscription that has not ended), and used up neither altogether nor by this user. It is then the quote of
-- that code's discount on the amount.
pub validate_and_quote_iff :
    (code user_id : ℕ) (plan_id : Option ℕ) (order_type : OrderType) (digits amount now : ℕ)
    (db : Db) (q : PromoQuote)
    → (validate_and_quote code user_id plan_id order_type digits amount now db ≡ ok q) ↔ (
        (id : ℕ) × (p : PromoCode) × (get_by_code code db.promos ≡ some (id, p))
        × IsQuotable id p user_id plan_id order_type digits amount now db
        × (q ≡ quote_of id p digits amount))
unfolding validate_and_quote
validate_and_quote_iff code user_id plan_id order_type digits amount now db q = (
  λ e. elim (Option-cases (get_by_code code db.promos)) [
    | inl missing ↦ absurd (ground arith)
    | inr ((id, p), found) ↦
        let (passes, value) =
          quote_found-inv id p user_id plan_id order_type digits amount now db (ground arith) in
        (
          id,
          p,
          found,
          passes-IsQuotable id p user_id plan_id order_type digits amount now db passes,
          value,
        )
  ],
  λ (id, p, found, h, value).
      let given =
        quote_found_ok id p user_id plan_id order_type digits amount now db
          (passes_of_quotable id p user_id plan_id order_type digits amount now db h) in
      ground (arith, given),
)

product_le : (x a w : ℕ) → 10000 * x ≤ a * 10000 + 5000 * w → x ≤ a + w / 2
product_le x a w h = omega arith

-- The rounded discount, in units of which `w` are a kopeck.
rounded_le : (a v w : ℕ) → v ≤ 10000 → (a * v + 5000 * w) / (10000 * w) * w ≤ a + w / 2
rounded_le a v w fair =
    let q = (a * v + 5000 * w) / (10000 * w) in
    let under : q * (10000 * w) ≤ a * v + 5000 * w =
      div-mul-le_self (a * v + 5000 * w) (10000 * w) in
    let most : a * v ≤ a * 10000 = grind arith in
    let flat : q * (10000 * w) ≡ 10000 * (q * w) = grind arith in
    product_le (q * w) a w (omega arith)

capped_le : (limit : Option ℕ) (d w : ℕ) → capped limit d * w ≤ d * w
capped_le limit d w = let le : capped limit d ≤ d = ground arith in grind arith

-- A code whose percentage is at most 100 takes off at most half a kopeck more than the amount.
compute_discount_le :
    (p : PromoCode) (digits amount : ℕ)
    → HasFairValue p
    → compute_discount p digits amount ≤ amount + 10 ^ digits / 2
unfolding compute_discount
compute_discount_le p digits amount fair =
    let w = 10 ^ digits in
    let exact = (amount * p.discount_value + 5000 * w) / (10000 * w) in
    let cap : capped p.max_discount_rub exact * w ≤ exact * w =
      capped_le p.max_discount_rub exact w in
    ground (arith, rounded_le amount p.discount_value w)

-- Where a quote is given by a code whose percentage is at most 100, the discount and what is left to pay add up to at
-- least the quoted amount, and to at most half a kopeck more, rounded down to the units of the amount: so to exactly
-- the amount, where its units are kopecks (0 digits).
pub validate_and_quote-adds_up :
    (code user_id : ℕ) (plan_id : Option ℕ) (order_type : OrderType) (digits amount now : ℕ)
    (db : Db) {q : PromoQuote}
    → ((id : ℕ) (p : PromoCode) → get_by_code code db.promos ≡ some (id, p) → HasFairValue p)
    → validate_and_quote code user_id plan_id order_type digits amount now db ≡ ok q
    → (q.amount_before ≡ amount)
      × (amount ≤ q.discount_rub + q.amount_after)
      × (q.discount_rub + q.amount_after ≤ amount + 10 ^ digits / 2)
validate_and_quote-adds_up code user_id plan_id order_type digits amount now db {q} fair e =
    let (id, p, found, _, value) =
      (validate_and_quote_iff code user_id plan_id order_type digits amount now db q).0 e in
    ground (arith, compute_discount_le p digits amount (fair id p found))
