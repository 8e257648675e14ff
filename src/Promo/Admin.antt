-- ===== src/Promo/Admin.antt =====
-- The administrator's operations of services/promo/service.py, with the validators of
-- services/promo/schemas.py that stand before them.
use vpn_control_api.Base.{
  ℕ, Bool, true, false, not, ◌&&◌, Option, none, some, List, [], ◌∷◌, ltb, if◌then◌else◌, Result,
  ok, err,
}
use vpn_control_api.Base.Table.{lookup, modify, remove}
use vpn_control_api.Store.{
  Db, Error, promo_code_exists, promo_not_found, validation_error, data_error, PromoCode,
  DiscountType, percent, fixed, PromoAudience, by_plan, PromoAppliesTo, create,
}
use vpn_control_api.Promo.Service.{get_by_code}

-- `PromoCodeCreateIn`; `code` is the code in upper case.
pub record PromoCodeCreateIn : Type 0 where
  pub code : ℕ
  pub discount_type : DiscountType
  pub discount_value : ℕ
  pub max_discount_rub : Option ℕ
  pub audience : PromoAudience
  pub plan_ids : List ℕ
  pub applies_to : PromoAppliesTo
  pub min_amount_rub : Option ℕ
  pub max_activations : Option ℕ
  pub max_per_user : ℕ
  pub starts_at : Option ℕ
  pub expires_at : Option ℕ

abbrev pub is_percent : DiscountType → Bool
is_percent percent = true
is_percent fixed = false

abbrev pub is_by_plan : PromoAudience → Bool
is_by_plan by_plan = true
is_by_plan _ = false

abbrev pub is_empty : List ℕ → Bool
is_empty [] = true
is_empty (x ∷ xs) = false

abbrev pub is_positive : Option ℕ → Bool
is_positive none = true
is_positive (some n) = ltb 0 n

-- The field bounds and the validator `_check` of `PromoCodeCreateIn`.
unfoldable pub create_in_valid : PromoCodeCreateIn → Bool
create_in_valid d =
    ltb 0 d.discount_value
    && (is_positive d.max_discount_rub
        && (is_positive d.max_activations
            && (ltb 0 d.max_per_user
                && (not (is_percent d.discount_type && ltb 10000 d.discount_value)
                    && not (is_by_plan d.audience && is_empty d.plan_ids)))))

-- The row of a new code: `PromoCodeInternalCreate`, and the defaults of the columns.
abbrev pub new_promo : PromoCodeCreateIn → PromoCode
new_promo d = record {
  code = d.code;
  discount_type = d.discount_type;
  discount_value = d.discount_value;
  max_discount_rub = d.max_discount_rub;
  audience = d.audience;
  plan_ids = d.plan_ids;
  applies_to = d.applies_to;
  min_amount_rub = d.min_amount_rub;
  max_activations = d.max_activations;
  max_per_user = d.max_per_user;
  starts_at = d.starts_at;
  expires_at = d.expires_at;
  activation_count = 0;
  is_active = true;
}

-- A `Numeric(10, 2)` column holds less than 10 ^ 10 hundredths, an `Integer` column less than 2 ^ 31.
abbrev pub fits : ℕ → Option ℕ → Bool
fits bound none = true
fits bound (some n) = ltb n bound

unfoldable pub row_fits : PromoCode → Bool
row_fits p =
    ltb p.discount_value 10000000000
    && (fits 10000000000 p.max_discount_rub
        && (fits 10000000000 p.min_amount_rub
            && (fits 2147483648 p.max_activations && ltb p.max_per_user 2147483648)))

-- `create_promo`; `new_id` is the identifier that the row gets.
unfoldable pub create_promo : ℕ → PromoCodeCreateIn → Db → Result Error Db
unfolding create_in_valid row_fits
create_promo new_id d db =
    if create_in_valid d
    then elim (get_by_code d.code db.promos) [
      | some _ ↦ err promo_code_exists
      | none ↦
          if row_fits (new_promo d)
          then ok (record db { promos = create new_id (new_promo d) db.promos })
          else err data_error
    ]
    else err validation_error

-- `PromoCodeUpdateIn`, less the description; `none` is a field that is not set.
pub record PromoCodeUpdateIn : Type 0 where
  pub discount_type : Option DiscountType
  pub discount_value : Option ℕ
  pub max_discount_rub : Option (Option ℕ)
  pub audience : Option PromoAudience
  pub plan_ids : Option (List ℕ)
  pub applies_to : Option PromoAppliesTo
  pub min_amount_rub : Option (Option ℕ)
  pub max_activations : Option (Option ℕ)
  pub max_per_user : Option ℕ
  pub starts_at : Option (Option ℕ)
  pub expires_at : Option (Option ℕ)
  pub is_active : Option Bool

abbrev pub set_or {ℓ} : {A : Type ℓ} → Option A → A → A
set_or none old = old
set_or (some new) old = new

abbrev pub patched : PromoCodeUpdateIn → PromoCode → PromoCode
patched d p = record p {
  discount_type = set_or d.discount_type p.discount_type;
  discount_value = set_or d.discount_value p.discount_value;
  max_discount_rub = set_or d.max_discount_rub p.max_discount_rub;
  audience = set_or d.audience p.audience;
  plan_ids = set_or d.plan_ids p.plan_ids;
  applies_to = set_or d.applies_to p.applies_to;
  min_amount_rub = set_or d.min_amount_rub p.min_amount_rub;
  max_activations = set_or d.max_activations p.max_activations;
  max_per_user = set_or d.max_per_user p.max_per_user;
  starts_at = set_or d.starts_at p.starts_at;
  expires_at = set_or d.expires_at p.expires_at;
  is_active = set_or d.is_active p.is_active;
}

abbrev pub is_positive_if_set : Option (Option ℕ) → Bool
is_positive_if_set none = true
is_positive_if_set (some value) = is_positive value

-- The bounds of the fields of `PromoCodeUpdateIn`, which has no validator across fields.
unfoldable pub update_in_valid : PromoCodeUpdateIn → Bool
update_in_valid d =
    is_positive d.discount_value
    && (is_positive_if_set d.max_discount_rub
        && (is_positive_if_set d.max_activations && is_positive d.max_per_user))

-- `update_promo`, behind its schema. A null for a column that takes none is left out.
unfoldable pub update_promo : ℕ → PromoCodeUpdateIn → Db → Result Error Db
unfolding update_in_valid row_fits
update_promo id d db =
    if update_in_valid d
    then elim (lookup id db.promos) [
      | none ↦ err promo_not_found
      | some old ↦
          if row_fits (patched d old)
          then ok (record db { promos = modify id (patched d) db.promos })
          else err data_error
    ]
    else err validation_error

-- `delete_promo`
unfoldable pub delete_promo : ℕ → Db → Result Error Db
delete_promo id db = elim (lookup id db.promos) [
  | none ↦ err promo_not_found
  | some _ ↦ ok (record db { promos = remove id db.promos })
]
