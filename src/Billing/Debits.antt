-- ===== src/Billing/Debits.antt =====
-- The manual debit of services/billing/service.py, in any fraction of a kopeck.
use vpn_control_api.Base.{
  ℕ, ◌+◌, ◌-◌, ◌*◌, ◌/◌, ◌%◌, ◌^◌, ◌≤◌, ◌<◌, ◌≡◌, ℤ, pos, negsuc, some, ◌==◌, if◌then◌else◌, arith,
  ap, false, inl, inr, ◌⊎◌, Bool-cases,
}
use native.Mathlib.Nat.{mod-lt, mod-add-div', one-le-pow}
use vpn_control_api.Base.Int.{◌+ℤ◌, ◌-ℤ◌, ◌<ℤ◌, ltb_ℤ, round_ℕ, round_to, scale}
use vpn_control_api.Base.Table.{lookup, lookup-modify}
use vpn_control_api.Store.{Db, User, manual_debit, insufficient_balance, done, raised}
use vpn_control_api.Billing.Purchase.{set_balance}
use vpn_control_api.Billing.Entry.{post_manual, debit_balance}
use vpn_control_api.Billing.Refunds.{balance_of}

-- A rounded number of units is within half a kopeck of them.
round_near :
    (digits n : ℕ)
    → (2 * (round_ℕ digits n * 10 ^ digits) ≤ 2 * n + 10 ^ digits)
      × (2 * n ≤ 2 * (round_ℕ digits n * 10 ^ digits) + 10 ^ digits)
round_near digits n =
    let w = 10 ^ digits in
    let q = (2 * n + w) / (2 * w) in
    let r = (2 * n + w) % (2 * w) in
    let sum : r + q * (2 * w) ≡ 2 * n + w = mod-add-div' (2 * n + w) (2 * w) in
    let positive : 1 ≤ w = one-le-pow digits 10 (omega arith) in
    let small : r < 2 * w = mod-lt (2 * n + w) (omega arith) in
    let flat : q * (2 * w) ≡ 2 * (q * w) = grind arith in (omega arith, omega arith)

left_over : (z : ℤ) (amount : ℕ) → ltb_ℤ z (pos amount) ≡ false → (m : ℕ) × (z ≡ pos (amount + m))
left_over (pos n) amount h = (n - amount, ground arith)
left_over (negsuc n) amount h = absurd (ground arith)

rest_lem :
    (digits amount m : ℕ)
    → round_to digits (pos (amount + m) +ℤ (pos 0 -ℤ pos amount)) ≡ pos (round_ℕ digits m)
unfolding round_to ◌+ℤ◌ ◌-ℤ◌
rest_lem digits amount m =
    let e : pos (amount + m) +ℤ (pos 0 -ℤ pos amount) ≡ pos m = ground arith in
    ap (round_to digits) e

post_manual-balance_of :
    (user_id digits amount exact : ℕ) (db : Db) {u : User} (id : ℕ)
    → lookup user_id db.users ≡ some u
    → scale digits u.balance ≡ pos (amount + exact)
    → balance_of id (post_manual user_id u.balance digits (pos 0 -ℤ pos amount) manual_debit db)
      ≡ (if id == user_id then some (pos (round_ℕ digits exact)) else balance_of id db)
unfolding balance_of post_manual
post_manual-balance_of user_id digits amount exact db {u} id known e =
    let stored : round_to digits (scale digits u.balance +ℤ (pos 0 -ℤ pos amount))
        ≡ pos (round_ℕ digits exact) =
      rw e (rest_lem digits amount exact) in
    ground (
      arith,
      stored,
      lookup-modify id user_id
          (set_balance (round_to digits (scale digits u.balance +ℤ (pos 0 -ℤ pos amount))))
          db.users,
    )

-- A manual debit of a known user, of an amount in units of which `10 ^ digits` are a kopeck, is refused exactly where
-- the balance does not cover the amount. Otherwise it leaves a balance that is not negative and within half a kopeck of
-- the exact difference (so the difference itself, where the units are kopecks), and no other balance changes.
pub debit_balance_rounds :
    (user_id digits amount : ℕ) (db : Db) {u : User}
    → lookup user_id db.users ≡ some u
    → ((scale digits u.balance <ℤ pos amount)
        × (debit_balance user_id digits amount db ≡ raised insufficient_balance db))
      ⊎ ((after : Db) × (debit_balance user_id digits amount db ≡ done after)
          × (exact stored : ℕ) × (scale digits u.balance ≡ pos (amount + exact))
          × (2 * (stored * 10 ^ digits) ≤ 2 * exact + 10 ^ digits)
          × (2 * exact ≤ 2 * (stored * 10 ^ digits) + 10 ^ digits)
          × ((id : ℕ)
              → balance_of id after
                ≡ (if id == user_id then some (pos stored) else balance_of id db)))
unfolding debit_balance
debit_balance_rounds user_id digits amount db {u} known =
    elim (Bool-cases (ltb_ℤ (scale digits u.balance) (pos amount))) [
      | inl short ↦ inl (ground arith, ground arith)
      | inr covered ↦
          let (exact, e) = left_over (scale digits u.balance) amount covered in
          let (low, high) = round_near digits exact in
          inr (
            post_manual user_id u.balance digits (pos 0 -ℤ pos amount) manual_debit db,
            ground arith,
            exact,
            round_ℕ digits exact,
            e,
            low,
            high,
            λ id. post_manual-balance_of user_id digits amount exact db id known e,
          )
    ]
