-- ===== src/Watches/Runs.antt =====
-- apps/core/watches/services/runs: `WatchActionRunService` and `WatchActionRunGlobal`.
-- An operation takes the tables and returns them; a service's account is its first argument.
pub mod Enqueue
pub mod Drain
pub mod Complete
pub mod Sound
pub mod Writes
pub mod Fencing
pub mod Activity
