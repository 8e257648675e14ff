-- ===== src/Billing/Rounding.antt =====
-- Manual operations of services/billing/service.py in fractions of a kopeck.
use vpn_control_api.Base.{
  ℕ, suc, ◌≡◌, ℤ, pos, negsuc, some, arith, ==_refl, refl, sym, false, ap, ◌∙◌,
}
use vpn_control_api.Base.Int.{
  ◌+ℤ◌, ◌-ℤ◌, ◌*ℤ◌, ltb_ℤ, pos_part, neg_part, int_laws, round_to, scale,
}
use vpn_control_api.Base.Table.{lookup, lookup-modify}
use vpn_control_api.Store.{Db, User, manual_debit, done}
use vpn_control_api.Billing.Purchase.{set_balance}
use vpn_control_api.Billing.Entry.{post_manual, debit_balance}
use vpn_control_api.Billing.Ledger.{IsBalanced, total}

-- Half a kopeck is five tenths.
half_less : (n : ℕ) → round_to 1 (scale 1 (pos (suc n)) +ℤ (pos 0 -ℤ pos 5)) ≡ pos (suc n)
unfolding round_to scale ◌+ℤ◌ ◌-ℤ◌ ◌*ℤ◌
half_less n = ground arith

minus_half : round_to 1 (pos 0 -ℤ pos 5) ≡ negsuc 0
unfolding round_to ◌-ℤ◌
minus_half = refl

half_covered : (n : ℕ) → ltb_ℤ (scale 1 (pos (suc n))) (pos 5) ≡ false
unfolding scale ◌*ℤ◌
half_covered n = ground arith

less_by_one : (a t : ℤ) → ¬ (a +ℤ t ≡ a +ℤ (negsuc 0 +ℤ t))
less_by_one a t e = let p = ap pos_part e in let q = ap neg_part e in omega int_laws

abbrev half_debited : ℕ → ℤ → Db → Db
half_debited user_id old db = post_manual user_id old 1 (pos 0 -ℤ pos 5) manual_debit db

half_debited-user :
    (user_id n : ℕ) (db : Db) {u : User}
    → lookup user_id db.users ≡ some u
    → u.balance ≡ pos (suc n)
    → lookup user_id (half_debited user_id u.balance db).users ≡ some u
unfolding post_manual
half_debited-user user_id n db {u} found kopecks =
    let kept : round_to 1 (scale 1 u.balance +ℤ (pos 0 -ℤ pos 5)) ≡ u.balance =
      rw kopecks (half_less n) in
    ground (
      arith,
      ==_refl user_id,
      kept,
      lookup-modify user_id user_id
          (set_balance (round_to 1 (scale 1 u.balance +ℤ (pos 0 -ℤ pos 5)))) db.users,
    )

half_debited-total :
    (user_id : ℕ) (old : ℤ) (db : Db)
    → total user_id (half_debited user_id old db).transactions
      ≡ negsuc 0 +ℤ total user_id db.transactions
unfolding post_manual total
half_debited-total user_id old db = ground (arith, ==_refl user_id, minus_half)

-- A manual debit of half a kopeck, from a known user with at least one kopeck, succeeds. The rounding of the columns
-- leaves the balance as it was, and the recorded transaction is of a whole kopeck: where the ledger was balanced, it
-- no longer is.
pub half_kopeck_debit :
    (opening : ℕ → ℤ) (user_id n : ℕ) (db : Db) {u : User}
    → lookup user_id db.users ≡ some u
    → u.balance ≡ pos (suc n)
    → IsBalanced opening db
    → (after : Db) × (debit_balance user_id 1 5 db ≡ done after)
      × (lookup user_id after.users ≡ some u)
      × (total user_id after.transactions ≡ negsuc 0 +ℤ total user_id db.transactions)
      × (¬ (IsBalanced opening after))
unfolding debit_balance IsBalanced
half_kopeck_debit opening user_id n db {u} found kopecks h =
    let user_after = half_debited-user user_id n db found kopecks in
    let moved = half_debited-total user_id u.balance db in
    let covered : ltb_ℤ (scale 1 u.balance) (pos 5) ≡ false = rw kopecks (half_covered n) in
    (
      half_debited user_id u.balance db,
      ground arith,
      user_after,
      moved,
      λ still. less_by_one (opening user_id) (total user_id db.transactions) (
          sym (h user_id u found)
          ∙ still user_id u user_after
          ∙ ap (λ t. opening user_id +ℤ t) moved),
    )
