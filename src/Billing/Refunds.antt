-- ===== src/Billing/Refunds.antt =====
-- What a refund and a manual debit do to balances and orders.
use mathlib.Core.Option
use vpn_control_api.Base.{
  ℕ, ◌≡◌, refl, ℤ, pos, ◌+ℤ◌, ◌-ℤ◌, ◌≤ℤ◌, Bool, true, false, Option, none, some, ◌==◌,
  if◌then◌else◌, arith, int_laws, -ℤ_parts, ap, ◌∙◌, ==_refl, inl, inr, ◌⊎◌, scale-0, ◌<ℤ◌, ltb_ℤ,
  Bool-cases,
}
use vpn_control_api.Base.Table.{lookup, lookup-modify}
use vpn_control_api.Store.{
  Db, TransactionType, User, PaymentOrder, refund, manual_debit, refunded, refund_not_allowed,
  insufficient_balance, done, raised,
}
use vpn_control_api.Referral.Service.{is_paid}
use vpn_control_api.Billing.Purchase.{post, set_balance}
use vpn_control_api.Billing.Fulfillment.{update_order}
use vpn_control_api.Billing.Entry.{deactivate, refund_order, debit_balance}
use vpn_control_api.Billing.Conservation.{post_manual-0}

-- The balance on a user's account.
unfoldable pub balance_of : ℕ → Db → Option ℤ
balance_of user_id db = Option.map (λ (u : User). u.balance) (lookup user_id db.users)

pub post-balance_of :
    (user_id : ℕ) (amount : ℤ) (type : TransactionType) (order_id : Option ℕ) (db : Db) {u : User}
    (id : ℕ)
    → lookup user_id db.users ≡ some u
    → balance_of id (post user_id u.balance amount type order_id db)
      ≡ (if id == user_id then some (u.balance +ℤ amount) else balance_of id db)
unfolding balance_of post
post-balance_of user_id amount type order_id db {u} id found =
    ground (arith, lookup-modify id user_id (set_balance (u.balance +ℤ amount)) db.users)

deactivate-users :
    (flag : Bool) (sub_id : Option ℕ) (db : Db) → (deactivate flag sub_id db).users ≡ db.users
deactivate-users flag sub_id db = ground arith

minus : (a b : ℤ) → a +ℤ (pos 0 -ℤ b) ≡ a -ℤ b
minus a b = omega int_laws

pub debit-balance_of :
    (user_id : ℕ) (amount : ℤ) (type : TransactionType) (order_id : Option ℕ) (db : Db) {u : User}
    (id : ℕ)
    → lookup user_id db.users ≡ some u
    → balance_of id (post user_id u.balance (pos 0 -ℤ amount) type order_id db)
      ≡ (if id == user_id then some (u.balance -ℤ amount) else balance_of id db)
debit-balance_of user_id amount type order_id db {u} id found =
    post-balance_of user_id (pos 0 -ℤ amount) type order_id db id found
    ∙ ap (λ b. if id == user_id then some b else balance_of id db) (minus u.balance amount)

pub balance_of-frame : (id : ℕ) (a b : Db) → b.users ≡ a.users → balance_of id b ≡ balance_of id a
unfolding balance_of
balance_of-frame id a b same = ground arith

-- The database after a refund.
abbrev refunded_db : ℕ → Bool → PaymentOrder → User → Db → Db
refunded_db order_id flag o u db = deactivate flag o.subscription_id (
    update_order order_id (λ x. record x { status = refunded })
      (post o.user_id u.balance (pos 0 -ℤ o.amount_rub) refund (some order_id) db))

refund_order-done :
    (order_id : ℕ) (flag : Bool) (db : Db) {o : PaymentOrder} {u : User}
    → lookup order_id db.orders ≡ some o
    → is_paid o.status ≡ true
    → lookup o.user_id db.users ≡ some u
    → refund_order order_id flag db ≡ done (refunded_db order_id flag o u db)
unfolding refund_order
refund_order-done order_id flag db {o} {u} found paid known = ground arith

refunded_db-order :
    (order_id : ℕ) (flag : Bool) (db : Db) (u : User) {o : PaymentOrder}
    → lookup order_id db.orders ≡ some o
    → lookup order_id (refunded_db order_id flag o u db).orders
      ≡ some (record o { status = refunded })
unfolding post
refunded_db-order order_id flag db u {o} found = ground (
  arith,
  ==_refl order_id,
  lookup-modify order_id order_id (λ (x : PaymentOrder). record x { status = refunded }) db.orders,
)

refund_order-refused :
    (order_id : ℕ) (flag : Bool) (db : Db) {o : PaymentOrder}
    → lookup order_id db.orders ≡ some o
    → is_paid o.status ≡ false
    → refund_order order_id flag db ≡ raised refund_not_allowed db
unfolding refund_order
refund_order-refused order_id flag db {o} found unpaid = ground arith

-- A refund of a paid or completed order of a known user succeeds: it takes the amount of the order off
-- the balance of that user, leaves all other balances, marks the order as refunded, and any further
-- refund of the order is refused.
pub refund_order_once :
    (order_id : ℕ) (flag : Bool) (db : Db) {o : PaymentOrder} {u : User}
    → lookup order_id db.orders ≡ some o
    → is_paid o.status ≡ true
    → lookup o.user_id db.users ≡ some u
    → (after : Db) × (refund_order order_id flag db ≡ done after)
      × ((id : ℕ)
          → balance_of id after
            ≡ (if id == o.user_id then some (u.balance -ℤ o.amount_rub) else balance_of id db))
      × (lookup order_id after.orders ≡ some (record o { status = refunded }))
      × ((again : Bool) → refund_order order_id again after ≡ raised refund_not_allowed after)
refund_order_once order_id flag db {o} {u} found paid known =
    let marked = refunded_db-order order_id flag db u found in
    (
      refunded_db order_id flag o u db,
      refund_order-done order_id flag db found paid known,
      (λ id.
          balance_of-frame id
            (post o.user_id u.balance (pos 0 -ℤ o.amount_rub) refund (some order_id) db) _
            (deactivate-users flag o.subscription_id _)
          ∙ debit-balance_of o.user_id o.amount_rub refund (some order_id) db id known),
      marked,
      λ again. refund_order-refused order_id again _ marked refl,
    )

debit_balance-done :
    (user_id amount : ℕ) (db : Db) {u : User}
    → lookup user_id db.users ≡ some u
    → ltb_ℤ u.balance (pos amount) ≡ false
    → debit_balance user_id 0 amount db
      ≡ done (post user_id u.balance (pos 0 -ℤ pos amount) manual_debit none db)
unfolding debit_balance
debit_balance-done user_id amount db {u} known covered = ground (
  arith,
  scale-0 u.balance,
  post_manual-0 user_id u.balance (pos 0 -ℤ pos amount) manual_debit db,
)

debit_balance-refused :
    (user_id amount : ℕ) (db : Db) {u : User}
    → lookup user_id db.users ≡ some u
    → ltb_ℤ u.balance (pos amount) ≡ true
    → debit_balance user_id 0 amount db ≡ raised insufficient_balance db
unfolding debit_balance
debit_balance-refused user_id amount db {u} known short = ground (arith, scale-0 u.balance)

not_negative : (a : ℤ) (n : ℕ) → ltb_ℤ a (pos n) ≡ false → pos 0 ≤ℤ a -ℤ pos n
not_negative a n h = ground (arith, -ℤ_parts a (pos n))

-- A manual debit of whole kopecks from a known user succeeds exactly where the balance covers it. It then leaves the
-- balance less the amount, which is not negative, and no other balance changes.
debit_balance_covered :
    (user_id amount : ℕ) (db : Db) {u : User}
    → lookup user_id db.users ≡ some u
    → ((u.balance <ℤ pos amount)
        × (debit_balance user_id 0 amount db ≡ raised insufficient_balance db))
      ⊎ ((after : Db) × (debit_balance user_id 0 amount db ≡ done after)
          × (pos 0 ≤ℤ u.balance -ℤ pos amount)
          × ((id : ℕ)
              → balance_of id after
                ≡ (if id == user_id then some (u.balance -ℤ pos amount) else balance_of id db)))
debit_balance_covered user_id amount db {u} known =
    elim (Bool-cases (ltb_ℤ u.balance (pos amount))) [
      | inl short ↦ inl (ground arith, debit_balance-refused user_id amount db known short)
      | inr covered ↦ inr (
        post user_id u.balance (pos 0 -ℤ pos amount) manual_debit none db,
        debit_balance-done user_id amount db known covered,
        not_negative u.balance amount covered,
        λ id. debit-balance_of user_id (pos amount) manual_debit none db id known,
      )
    ]
