-- ===== src/Feeds/Model.antt =====
-- The tables of apps/core/feeds/models, and the input and the results of a set of sources in
-- packages/openmagpie-schema/src/openmagpie_schema/feed.
use openmagpie.Prelude.{ℕ, Bool, Option}

-- `is_curated` is `kind == CuratedFeedConfig.FEED_KIND`; `retention_days` stands in the config.
pub record Feed : Type 0 where
  pub id : ℕ
  pub account_id : ℕ
  pub is_curated : Bool
  pub retention_days : ℕ

pub record Source : Type 0 where
  pub id : ℕ
  pub account_id : ℕ
  pub feed_id : ℕ
  pub kind : ℕ
  pub spec : ℕ
  pub spec_hash : ℕ
  pub last_event_at : Option ℕ
  pub meta : ℕ
  pub field_map : ℕ

pub record SourceInput : Type 0 where
  pub spec : ℕ
  pub last_event_at : Option ℕ
  pub meta : ℕ
  pub field_map : ℕ

pub record SourceSetResult : Type 0 where
  pub added : ℕ
  pub removed : ℕ
  pub persisted : ℕ
  pub source_count : ℕ

pub record SourceSeekResult : Type 0 where
  pub advanced : ℕ
  pub rewound : ℕ
  pub unchanged : ℕ
  pub source_count : ℕ
  pub to : ℕ
  pub dry_run : Bool
