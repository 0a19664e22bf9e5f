-- ===== src/Common.antt =====
-- apps/core/common: what the apps share, the cache, its locks and the jobs that run under one.
pub mod Cache
pub mod Locks
pub mod Commands
pub mod Memory
mod Tests
