-- ===== src/Auth.antt =====
-- apps/core/auth_api: how a command line gets its credentials.
pub mod DeviceSessions
mod Tests
