-- ===== src/Store.antt =====
-- The database that the billing, promo and referral services share, as one session sees it.
pub mod Rows
pub use Rows.*
use vpn_control_api.Base.{ℕ, List, ◌++◌, [], ◌∷◌}
use vpn_control_api.Base.Table.{Table}

-- Transactions and promo activations are listed newest first.
pub record Db : Type 0 where
  pub users : Table User
  pub plans : Table Plan
  pub subscriptions : Table Subscription
  pub keys : Table Key
  pub orders : Table PaymentOrder
  pub transactions : List BalanceTransaction
  pub fees : List PaymentProviderFee
  pub promos : Table PromoCode
  pub activations : List PromoActivation
  pub referrals : Table Referral

-- The exceptions of services/billing, services/promo and services/referral, and pydantic's
-- `ValidationError`, where a value is outside the bounds of its schema, and the error of the database where a number
-- has too many digits for its column.
pub data Error : Type 0 where
  order_not_found order_expired plan_not_purchasable insufficient_balance fulfillment_failed : Error
  refund_not_allowed provider_error webhook_verification_failed : Error
  trial_already_used trial_unavailable device_slot_limit_exceeded subscription_not_found : Error
  validation_error data_error : Error
  promo_invalid promo_not_eligible promo_exhausted promo_not_found promo_code_exists : Error
  referral_not_enabled referral_code_not_found self_referral_not_allowed already_referred : Error

-- How a call ends. The session holds what was written before a raise, too.
pub data Run : Type 0 where
  done : Db → Run
  raised : Error → Db → Run

-- The state of the session when the call has ended.
abbrev pub session : Run → Db
session (done db) = db
session (raised e db) = db

-- `a; b`: the second call runs only if the first did not raise.
infixl 5 ◌then_run◌
abbrev pub ◌then_run◌ : Run → (Db → Run) → Run
done db then_run f = f db
raised e db then_run f = raised e db

-- `AsyncDatabaseSessions.get_session` (shared/database/session.py): commit, or roll back on a raise.
unfoldable pub get_session : Db → Run → Db
get_session before (done db) = db
get_session before (raised e db) = before

-- `create`: a new row under a new identifier, behind the others.
abbrev pub create : {R : Type 0} → ℕ → R → Table R → Table R
create id row t = t ++ (id, row) ∷ []
