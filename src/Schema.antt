-- ===== src/Schema.antt =====
-- packages/openmagpie-schema: the contracts that the server and the command line share.
pub mod RunWindows
mod Tests
