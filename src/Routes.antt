-- ===== src/Routes.antt =====
-- services/routes: the health and warm-up of a route.
pub mod Schemas
pub mod StateMachine
pub mod Health
pub mod Service
pub mod Warmup
pub mod Advance
mod Tests
