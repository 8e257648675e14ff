-- ===== src/Fleet.antt =====
-- Nodes, their agents, the probe signals about them, and what moves the health of their routes.
pub mod Rows
pub mod Signals
pub mod Probes
pub mod Streaks
pub mod Escalation
pub mod Blocks
pub mod Weightless
pub mod Heartbeat
pub mod EntryDrain
pub mod EntryTick
pub mod EntryLaws
pub mod EntryRun
pub mod EntryTotal
pub mod Restore
pub mod Beats
pub mod Tests
pub mod EntryTests
