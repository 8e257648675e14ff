-- ===== src/Promo.antt =====
-- services/promo: promo codes.
pub mod Service
pub mod Admin
pub mod Audience
pub mod Quote
pub mod Ledger
pub mod Validation
mod Tests
