-- ===== src/Traffic.antt =====
-- The traffic of users and the limits on it: services/traffic/users.
pub mod Ingest
pub mod Usage
pub mod Limits
pub mod Reset
pub mod Periods
pub mod Reinstated
pub mod Tests
pub mod ResetTests
