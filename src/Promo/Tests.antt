-- ===== src/Promo/Tests.antt =====
-- The theorems on promo codes at concrete codes.
use vpn_control_api.Base.{
  ℕ, ◌+◌, ◌<◌, ◌≤◌, ◌/◌, ◌^◌, ◌≡◌, refl, pos, true, none, some, [], ◌∷◌, arith, ok, ◌↔◌, ==_iff,
}
use vpn_control_api.Base.Table.{lookup}
use vpn_control_api.Store.{Db, PromoCode, PromoActivation, percent, all, any, plan_purchase}
use vpn_control_api.Promo.Service.{
  compute_discount, PromoQuote, get_by_code, validate_and_quote, record_activation,
}
use vpn_control_api.Promo.Admin.{
  create_in_valid, PromoCodeCreateIn, PromoCodeUpdateIn, create_promo, update_promo,
  update_in_valid, row_fits, patched, new_promo,
}
use vpn_control_api.Promo.Quote.{
  HasFairValue, IsQuotable, quote_of, validate_and_quote_iff, validate_and_quote-adds_up,
}
use vpn_control_api.Promo.Ledger.{IsCounted, count_for_promo, record_activation-IsCounted}
use vpn_control_api.Promo.Validation.{AllFair, create_promo-AllFair, update_promo_oversized}

-- Ten percent off, twice at most, used once so far.
abbrev tenth : PromoCode
tenth = record {
  code = 500;
  discount_type = percent;
  discount_value = 1000;
  max_discount_rub = none;
  audience = all;
  plan_ids = [];
  applies_to = any;
  min_amount_rub = none;
  max_activations = some 2;
  max_per_user = 1;
  starts_at = none;
  expires_at = none;
  activation_count = 1;
  is_active = true;
}

abbrev use_of : ℕ → PromoActivation
use_of user_id = record {
  promo_code_id = 6;
  user_id = user_id;
  order_id = none;
  amount_before = pos 20000;
  discount_applied = 2000;
  amount_after = pos 18000;
}

abbrev shop : Db
shop = record {
  users = [];
  plans = [];
  subscriptions = [];
  keys = [];
  orders = [];
  transactions = [];
  fees = [];
  promos = (6, tenth) ∷ [];
  activations = use_of 8 ∷ [];
  referrals = [];
}

validate_and_quote_iff_example :
    (validate_and_quote 500 1 none plan_purchase 0 20000 0 shop ≡ ok (quote_of 6 tenth 0 20000)) ↔ (
      (id : ℕ) × (p : PromoCode) × (get_by_code 500 shop.promos ≡ some (id, p))
      × IsQuotable id p 1 none plan_purchase 0 20000 0 shop
      × (quote_of 6 tenth 0 20000 ≡ quote_of id p 0 20000))
validate_and_quote_iff_example =
    validate_and_quote_iff 500 1 none plan_purchase 0 20000 0 shop (quote_of 6 tenth 0 20000)

a_quote : validate_and_quote 500 1 none plan_purchase 0 20000 0 shop ≡ ok (quote_of 6 tenth 0 20000)
unfolding validate_and_quote
a_quote = refl

-- All of 10.005 roubles, in tenths of a kopeck: the discount is rounded up, above the amount.
fine_discount : compute_discount (record tenth { discount_value = 10000 }) 1 10005 ≡ 10010
unfolding compute_discount
fine_discount = refl

shop-AllFair : AllFair shop
unfolding lookup
shop-AllFair id p found = ground arith

fair_by_code :
    (id : ℕ) (p : PromoCode) → get_by_code 500 shop.promos ≡ some (id, p) → HasFairValue p
unfolding get_by_code
fair_by_code id p found = ground arith

-- 200.005 roubles.
abbrev fine_quote : PromoQuote
fine_quote = quote_of 6 tenth 1 200005

fine_quote_run : validate_and_quote 500 1 none plan_purchase 1 200005 0 shop ≡ ok fine_quote
unfolding validate_and_quote
fine_quote_run = refl

validate_and_quote-adds_up_example :
    (fine_quote.amount_before ≡ 200005)
    × (200005 ≤ fine_quote.discount_rub + fine_quote.amount_after)
    × (fine_quote.discount_rub + fine_quote.amount_after ≤ 200005 + 10 ^ 1 / 2)
validate_and_quote-adds_up_example =
    validate_and_quote-adds_up 500 1 none plan_purchase 1 200005 0 shop {q = fine_quote}
      fair_by_code fine_quote_run

shop-IsCounted : IsCounted shop
unfolding lookup count_for_promo
shop-IsCounted id p found = ground (arith, ==_iff 6 id, ==_iff id 6)

record_activation-IsCounted_example : IsCounted (record_activation (use_of 1) shop)
record_activation-IsCounted_example = record_activation-IsCounted (use_of 1) shop shop-IsCounted

abbrev doubled : PromoCode
doubled = record tenth { discount_value = 20000 }

abbrev request : PromoCodeCreateIn
request = record {
  code = 501;
  discount_type = percent;
  discount_value = 5000;
  max_discount_rub = none;
  audience = all;
  plan_ids = [];
  applies_to = any;
  min_amount_rub = none;
  max_activations = none;
  max_per_user = 1;
  starts_at = none;
  expires_at = none;
}

abbrev larger : Db
larger = record shop { promos = (6, tenth) ∷ (7, new_promo request) ∷ [] }

created : create_promo 7 request shop ≡ ok larger
unfolding create_promo get_by_code create_in_valid
created = refl

create_promo-AllFair_example :
    AllFair larger
    × (p : PromoCode) × (lookup 7 larger.promos ≡ some p)
    × (p.is_active ≡ true)
    × (p.activation_count ≡ 0)
unfolding lookup
create_promo-AllFair_example =
    create_promo-AllFair 7 request shop {after = larger} shop-AllFair refl created

abbrev change : PromoCodeUpdateIn
change = record {
  discount_type = some percent;
  discount_value = some 20000;
  max_discount_rub = some none;
  audience = none;
  plan_ids = none;
  applies_to = none;
  min_amount_rub = none;
  max_activations = none;
  max_per_user = none;
  starts_at = none;
  expires_at = none;
  is_active = none;
}

update_promo_oversized_example :
    (after : Db) × (update_promo 6 change shop ≡ ok after)
    × (lookup 6 after.promos ≡ some (patched change tenth))
    × (300 < compute_discount (patched change tenth) 0 300)
unfolding lookup
update_promo_oversized_example =
    update_promo_oversized 6 change shop 300 {p = tenth} {v = 20000} refl refl refl (omega arith)
      refl (omega arith) (unfold update_in_valid in refl) (unfold row_fits in refl)
