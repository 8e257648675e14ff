-- ===== src/Billing.antt =====
-- services/billing: orders, payments and balances.
pub mod Subscriptions
pub mod Purchase
pub mod Fulfillment
pub mod Entry
pub mod Checkout
pub mod PlanCheckout
pub mod Expiry
pub mod Ledger
pub mod Conservation
pub mod History
pub mod Orders
pub mod Idempotence
pub mod Refunds
pub mod Rounding
pub mod Debits
pub mod Targets
pub mod Extensions
pub mod Grants
pub mod Payments
pub mod Slots
pub mod SlotOrders
pub mod PlanOrders
pub mod Trials
mod Samples
mod Tests
mod CheckoutTests
