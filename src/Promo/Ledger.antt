-- ===== src/Promo/Ledger.antt =====
-- The activations of promo codes against the counters of the codes.
use vpn_control_api.Base.{
  ℕ, ◌+◌, ◌*◌, ◌≤◌, ◌<◌, ◌≡◌, false, none, some, List, [], ◌∷◌, ◌==◌, if◌then◌else◌, arith, ==_refl,
  ==_iff, Option-cases, inl, inr,
}
use vpn_control_api.Base.Table.{lookup, modify, lookup-modify}
use vpn_control_api.Store.{Db, PromoCode, PromoActivation, percent}
use vpn_control_api.Promo.Service.{is_used_up, record_activation, compute_discount}

-- How many activations of a code are on record.
unfoldable pub count_for_promo : ℕ → List PromoActivation → ℕ
count_for_promo id [] = 0
count_for_promo id (a ∷ rest) =
    if a.promo_code_id == id then 1 + count_for_promo id rest else count_for_promo id rest

-- Every code's counter is the number of its activations.
abbrev pub IsCounted : Db → Type 0
IsCounted db =
    (id : ℕ) (p : PromoCode)
    → lookup id db.promos ≡ some p
    → p.activation_count ≡ count_for_promo id db.activations

abbrev one_more : PromoCode → PromoCode
one_more x = record x { activation_count = x.activation_count + 1 }

-- Recording an activation keeps the counters of all codes equal to the numbers of their activations.
pub record_activation-IsCounted :
    (a : PromoActivation) (db : Db) → IsCounted db → IsCounted (record_activation a db)
unfolding record_activation count_for_promo
record_activation-IsCounted a db h id p e = elim (Option-cases (lookup id db.promos)) [
  | inl missing ↦ ground (arith, lookup-modify id a.promo_code_id one_more db.promos)
  | inr (old, found) ↦ ground (
    arith,
    h id old found,
    ==_iff id a.promo_code_id,
    ==_iff a.promo_code_id id,
    lookup-modify id a.promo_code_id one_more db.promos,
  )
]

-- The limit on activations is tested when a code is quoted and not when its activation is recorded: of two
-- orders quoted while one activation is left, both are recorded, and the counter passes the limit.
activation_limit_passed :
    (a b : PromoActivation) (db : Db) {p : PromoCode} {limit : ℕ}
    → lookup a.promo_code_id db.promos ≡ some p
    → b.promo_code_id ≡ a.promo_code_id
    → p.max_activations ≡ some limit
    → p.activation_count + 1 ≡ limit
    → (is_used_up p.activation_count p.max_activations ≡ false)
      × (q : PromoCode) × (lookup a.promo_code_id
            (record_activation b (record_activation a db)).promos
          ≡ some q)
      × (q.max_activations ≡ some limit)
      × (limit < q.activation_count)
unfolding record_activation
activation_limit_passed a b db {p} found same max left = (
  ground arith,
  record p { activation_count = p.activation_count + 1 + 1 },
  ground (
    arith,
    ==_refl a.promo_code_id,
    lookup-modify a.promo_code_id a.promo_code_id one_more db.promos,
    lookup-modify a.promo_code_id b.promo_code_id one_more
        (modify a.promo_code_id one_more db.promos),
  ),
  max,
  omega arith,
)

-- A code with a percentage of at least 200 and no cap takes more off a positive amount than the amount.
pub oversized_discount :
    (p : PromoCode) (amount : ℕ)
    → p.discount_type ≡ percent
    → p.max_discount_rub ≡ none
    → 20000 ≤ p.discount_value
    → 1 ≤ amount
    → amount < compute_discount p 0 amount
unfolding compute_discount
oversized_discount p amount e none_set big pos =
    let le : amount * 20000 ≤ amount * p.discount_value = grind arith in ground arith
