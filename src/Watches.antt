-- ===== src/Watches.antt =====
-- apps/core/watches: the run queue, the digest windows, the action chain and the passes over them.
pub mod Enums
pub mod Model
pub mod Runs
pub mod Windows
pub mod Chain
pub mod Advance
pub mod Deliveries
pub mod Drain
pub mod Trigger
pub mod Flush
pub mod Items
pub mod Backfills
mod Tests
