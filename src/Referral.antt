-- ===== src/Referral.antt =====
-- services/referral: the referral programme.
pub mod Service
pub mod Rewards
mod Tests
