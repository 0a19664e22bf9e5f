-- ===== src/Feeds.antt =====
-- apps/core/feeds: a feed polls its sources; each source has a watermark.
pub mod Model
pub mod Sources
pub mod Watermarks
mod Tests
