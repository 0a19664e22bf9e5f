-- ===== src/Feeds/Tests.antt =====
-- The theorems of the sources, at a feed with two sources of which one stays.
use Prim.Native.String.{String}
use text.Mathlib.Text.{◌==◌ as ◌=s=◌}
use text.Mathlib.TextEquality.{eq_iff}
use openmagpie.Prelude.{
  ℕ, ◌≡◌, ◌≢◌, refl, Bool, true, false, Option, none, some, List, [], ◌∷◌, arith, inr, ◌⊎◌, count,
  update, ◌≤◌,
}
use openmagpie.Common.Cache.{Cache}
use openmagpie.Common.Memory.{Memory, memory}
use openmagpie.Common.Locks.{LockSettings}
use openmagpie.Schema.RunWindows.{keyword, oldest}
use openmagpie.Feeds.Model.{Feed, Source, SourceInput, SourceSetResult}
use openmagpie.Feeds.Sources.{SetError, scoped, set_sources, new_by_hash}
use openmagpie.Feeds.Sources.View.{view, lookup}
use openmagpie.Feeds.Sources.Retag.{merge}
use openmagpie.Feeds.Sources.Replace.{set_sources-merge, set_sources-set_sources}
use openmagpie.Feeds.Watermarks.{mark, seek_rows, seek_floor, resolve_target, advance_watermark}
use openmagpie.Feeds.Watermarks.Seek.{
  seek_rows_lem, seek_rows-advance_watermark, resolve_target_bounds,
}

abbrev tokens : Cache String ℕ (Memory String ℕ)
tokens = memory (λ a b. a =s= b) eq_iff

abbrev empty : Memory String ℕ
empty key = none

abbrev locks : LockSettings
locks = record {
  poll_lock_timeout_seconds = 600;
  feed_set_lock_timeout_seconds = 60;
  path_chain_lock_timeout_seconds = 30;
  digest_flush_lock_timeout_seconds = 600;
  job_lock_lease_seconds = 300;
  job_lock_max_hold_seconds = 86400;
  refresh_token_lock_timeout_seconds = 30;
}

abbrev feed : Feed
feed = record { id = 30; account_id = 1; is_curated = true; retention_days = 2 }

abbrev source_of : ℕ → ℕ → ℕ → Source
source_of id spec at = record {
  id = id;
  account_id = 1;
  feed_id = 30;
  kind = 5;
  spec = spec;
  spec_hash = spec;
  last_event_at = some at;
  meta = 0;
  field_map = 0;
}

abbrev input_of : ℕ → ℕ → SourceInput
input_of spec meta = record { spec = spec; last_event_at = none; meta = meta; field_map = 0 }

abbrev rows : List Source
rows = source_of 1 70 500 ∷ source_of 2 71 600 ∷ []

-- 71 stays, with other tags, 70 goes and 72 is new; the second input of 71 is dropped.
abbrev items : List SourceInput
items = input_of 71 9 ∷ input_of 72 0 ∷ input_of 71 8 ∷ []

abbrev spec_of : ℕ → ℕ
spec_of spec = spec

abbrev all : ℕ → Bool
all n = true

abbrev sha256 : String → String
sha256 s = s

abbrev shown : ℕ → String
shown id = "30"

abbrev result : SourceSetResult
result = record { added = 1; removed = 1; persisted = 1; source_count = 2 }

abbrev outcome : (SetError ⊎ SourceSetResult) × List Source × Memory String ℕ
outcome =
    set_sources spec_of spec_of all all tokens locks sha256 shown 1000 1001 7 1 feed 3 false items
      rows empty

abbrev written : List Source
written = outcome.1

outcome_lem : outcome ≡ (inr result, written, outcome.2)
unfolding set_sources
outcome_lem = refl

set_sources-merge_example :
    view 1 feed written 71 ≡ merge spec_of 1000 (lookup spec_of 71 items) (view 1 feed rows 71)
set_sources-merge_example =
    set_sources-merge spec_of spec_of all all tokens locks sha256 shown 1000 1001 7 1 feed 3 items
      rows empty result written outcome.2 71 outcome_lem

-- The same input again, a thousand seconds later.
abbrev again : Bool → (SetError ⊎ SourceSetResult) × List Source × Memory String ℕ
again dry_run =
    set_sources spec_of spec_of all all tokens locks sha256 shown 2000 2001 8 1 feed 9 dry_run items
      written empty

abbrev no_change : SourceSetResult
no_change = record { added = 0; removed = 0; persisted = 2; source_count = 2 }

set_sources-set_sources_example :
    (again true ≡ (inr no_change, written, empty))
    × ((again false).0 ≡ inr no_change)
    × (view 1 feed (again false).1 71 ≡ view 1 feed written 71)
unfolding new_by_hash
set_sources-set_sources_example =
    set_sources-set_sources spec_of spec_of all all tokens locks sha256 shown 1000 1001 7 1 feed 3
      items rows empty result written outcome.2 outcome_lem 2000 2001 8 9 empty 71 refl

seek_rows_lem_example :
    (seek_rows (scoped 1 feed) 550 false rows ≡ (
      record (seek_rows (scoped 1 feed) 550 true rows).0 { dry_run = false },
      update (scoped 1 feed) (mark 550) rows,
    ))
    × ((seek_rows (scoped 1 feed) 550 true rows).0.source_count ≡ count (scoped 1 feed) rows)
seek_rows_lem_example = seek_rows_lem (scoped 1 feed) 550 (unfold scoped in λ row. refl) rows

moved : ◌≢◌ {A = Option ℕ} (some 500) (some 550)
moved e = ground arith

seek_rows-advance_watermark_example :
    advance_watermark 1 (source_of 1 70 500) 700 (seek_rows (scoped 1 feed) 550 false rows).1
    ≡ (0, (seek_rows (scoped 1 feed) 550 false rows).1)
seek_rows-advance_watermark_example =
    seek_rows-advance_watermark 1 feed 550 (source_of 1 70 500) 700 moved rows
      ((λ e. refl), ((λ e. refl), tt))

resolve_target_bounds_example : (seek_floor 2 1000000 ≤ 827200) × (827200 ≤ 1000001)
resolve_target_bounds_example =
    resolve_target_bounds feed (keyword oldest) 1000000 1000001 827200
      (unfold resolve_target in refl)
