-- ===== src/Routing.antt =====
-- The choice of routes for a user: services/routing/selector.py.
pub mod Selector
pub mod Picks
pub mod Selection
pub mod Replacement
pub mod Insurance
pub mod Diversity
pub mod Tests
