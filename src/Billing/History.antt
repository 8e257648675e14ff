-- ===== src/Billing/History.antt =====
-- Sequences of requests to the billing service, each in a database session of its own.
use vpn_control_api.Base.{ℕ, ◌≡◌, ℤ, Bool, List, [], ◌∷◌}
use vpn_control_api.Store.{Db, Run, done, raised, session, get_session}
use vpn_control_api.Billing.Fulfillment.{Payment}
use vpn_control_api.Billing.Entry.{
  Webhook, process_webhook, confirm_stars_payment, refund_order, credit_balance, debit_balance,
}
use vpn_control_api.Billing.Ledger.{IsBalanced}
use vpn_control_api.Billing.Conservation.{
  process_webhook-IsBalanced, confirm_stars_payment-IsBalanced, refund_order-IsBalanced,
  credit_balance-IsBalanced, debit_balance-IsBalanced,
}

-- The routes of services/billing/router.py that move money.
pub data Request : Type 0 where
  webhook : Webhook → Request
  confirm_stars : Payment → ℕ → Request
  refund_request : ℕ → Bool → Request
  credit debit : ℕ → ℕ → ℕ → Request

unfoldable pub handle : Request → Db → Run
handle (webhook w) db = process_webhook w db
handle (confirm_stars p order_id) db = confirm_stars_payment p order_id db
handle (refund_request order_id flag) db = refund_order order_id flag db
handle (credit user_id digits amount) db = credit_balance user_id digits amount db
handle (debit user_id digits amount) db = debit_balance user_id digits amount db

-- Each request commits, or is rolled back when it raises.
unfoldable pub run : List Request → Db → Db
unfolding handle get_session
run [] db = db
run (r ∷ rs) db = run rs (get_session db (handle r db))

-- The amounts of manual operations are whole kopecks.
abbrev pub IsWhole : Request → Type 0
IsWhole (credit user_id digits amount) = digits ≡ 0
IsWhole (debit user_id digits amount) = digits ≡ 0
IsWhole _ = Unit

abbrev pub AllWhole : List Request → Type 0
AllWhole [] = Unit
AllWhole (r ∷ rs) = IsWhole r × AllWhole rs

module _ (opening : ℕ → ℤ) where
  handle-IsBalanced :
      (r : Request) (db : Db)
      → IsWhole r
      → IsBalanced opening db
      → IsBalanced opening (session (handle r db))
  unfolding handle
  handle-IsBalanced (webhook w) db whole h = process_webhook-IsBalanced opening w db h
  handle-IsBalanced (confirm_stars p order_id) db whole h =
      confirm_stars_payment-IsBalanced opening p order_id db h
  handle-IsBalanced (refund_request order_id flag) db whole h =
      refund_order-IsBalanced opening order_id flag db h
  handle-IsBalanced (credit user_id digits amount) db whole h =
      rw whole (credit_balance-IsBalanced opening user_id amount db h)
  handle-IsBalanced (debit user_id digits amount) db whole h =
      rw whole (debit_balance-IsBalanced opening user_id amount db h)

  get_session-IsBalanced :
      (before : Db) (r : Run)
      → IsBalanced opening before
      → IsBalanced opening (session r)
      → IsBalanced opening (get_session before r)
  unfolding get_session
  get_session-IsBalanced before (done db) h k = k
  get_session-IsBalanced before (raised e db) h k = h

  -- After any sequence of webhooks, Stars confirmations, refunds and manual balance operations, where the amounts of
  -- the manual operations are whole kopecks, every user's balance is still the opening balance and the sum of the user's recorded transactions.
  pub run-IsBalanced :
      (rs : List Request) (db : Db)
      → AllWhole rs
      → IsBalanced opening db
      → IsBalanced opening (run rs db)
  unfolding run
  run-IsBalanced [] db whole h = h
  run-IsBalanced (r ∷ rs) db (whole, rest) h =
      run-IsBalanced rs _ rest
        (get_session-IsBalanced db (handle r db) h (handle-IsBalanced r db whole h))
