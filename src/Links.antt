-- ===== src/Links.antt =====
-- apps/core/links: short links and their clicks.
pub mod ShortLinks
mod Tests
