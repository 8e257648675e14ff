-- ===== src/Promo/Validation.antt =====
-- What the validators of services/promo/schemas.py do and do not keep out.
use vpn_control_api.Base.{ℕ, ◌≤◌, ◌<◌, ◌≡◌, refl, true, none, some, ok, arith, ==_refl}
use vpn_control_api.Base.Table.{lookup, modify, lookup-modify, lookup-append}
use vpn_control_api.Store.{create, Db, PromoCode, percent}
use vpn_control_api.Promo.Service.{compute_discount}
use vpn_control_api.Promo.Admin.{
  PromoCodeCreateIn, PromoCodeUpdateIn, patched, create_promo, update_in_valid, row_fits,
  update_promo, new_promo,
}
use vpn_control_api.Promo.Quote.{HasFairValue}
use vpn_control_api.Promo.Ledger.{oversized_discount}

-- Every code of the database has a percentage of at most 100.
abbrev pub AllFair : Db → Type 0
AllFair db = (id : ℕ) (p : PromoCode) → lookup id db.promos ≡ some p → HasFairValue p

create_promo-inv :
    (new_id : ℕ) (d : PromoCodeCreateIn) (db : Db) {after : Db}
    → create_promo new_id d db ≡ ok after
    → HasFairValue (new_promo d)
      × (after ≡ record db { promos = create new_id (new_promo d) db.promos })
unfolding create_promo
create_promo-inv new_id d db e = ground arith

-- Creating a code keeps all percentages at 100 or less, and the new code, under a fresh identifier, starts active with no activation.
pub create_promo-AllFair :
    (new_id : ℕ) (d : PromoCodeCreateIn) (db : Db) {after : Db}
    → AllFair db
    → lookup new_id db.promos ≡ none
    → create_promo new_id d db ≡ ok after
    → AllFair after
      × (p : PromoCode) × (lookup new_id after.promos ≡ some p)
      × (p.is_active ≡ true)
      × (p.activation_count ≡ 0)
create_promo-AllFair new_id d db fair fresh e =
    let (fair_new, made) = create_promo-inv new_id d db e in
    (
      λ id p found. ground (arith, lookup-append id new_id (new_promo d) db.promos, fair id p),
      new_promo d,
      ground (arith, lookup-append new_id new_id (new_promo d) db.promos, ==_refl new_id),
      refl,
      refl,
    )

-- Updating a code checks each field alone: an update within the bounds of its schema and of the columns, of an existing
-- code to a percentage of at least 200 with no cap, is accepted, and the code then takes more off any positive amount
-- of whole kopecks than the amount itself.
pub update_promo_oversized :
    (id : ℕ) (d : PromoCodeUpdateIn) (db : Db) (amount : ℕ) {p : PromoCode} {v : ℕ}
    → lookup id db.promos ≡ some p
    → d.discount_type ≡ some percent
    → d.discount_value ≡ some v
    → 20000 ≤ v
    → d.max_discount_rub ≡ some none
    → 1 ≤ amount
    → update_in_valid d ≡ true
    → row_fits (patched d p) ≡ true
    → (after : Db) × (update_promo id d db ≡ ok after)
      × (lookup id after.promos ≡ some (patched d p))
      × (amount < compute_discount (patched d p) 0 amount)
unfolding update_promo
update_promo_oversized id d db amount {p} found t v big cap positive valid holds = (
  record db { promos = modify id (patched d) db.promos },
  ground arith,
  ground (arith, lookup-modify id id (patched d) db.promos, ==_refl id),
  ground (arith, oversized_discount (patched d p) amount),
)
