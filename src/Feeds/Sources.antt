-- ===== src/Feeds/Sources.antt =====
-- apps/core/feeds/services/sources.py: the sources of a feed, replaced as a set.
pub mod View
pub mod Retag
pub mod Refines
pub mod Replace
use Prim.Native.String.{String}
use openmagpie.Prelude.{
  ℕ, suc, Bool, true, false, not, ◌&&◌, ◌||◌, Option, none, some, List, [], ◌∷◌, ◌++◌, ◌==◌, ltb,
  if◌then◌else◌, select, remove, update, exists, length, count, ◌⊎◌, inl, inr,
}
use mathlib.Core.Option.{map as map_option}
use openmagpie.Common.Cache.{Cache}
use openmagpie.Common.Locks.{LockSettings, acquire, release, feed_set_lock, lock_name}
use openmagpie.Feeds.Model.{Feed, Source, SourceInput, SourceSetResult}

-- `SourceService._scoped`.
unfoldable pub scoped : ℕ → Feed → Source → Bool
scoped account feed row = row.account_id == account && row.feed_id == feed.id

-- The errors, with what the HTTP layer makes of them: 500, 400, 400 at the watermark, 409.
pub data SetError : Type 0 where
  out_of_scope : SetError
  policy_error : SetError
  source_watermark_error : SetError
  concurrent_set_sources : SetError

-- `default_and_enforce_source_watermark` of apps/core/feeds/policy.py: `none` is the error.
unfoldable pub default_and_enforce : ℕ → Option ℕ → Option ℕ
default_and_enforce now none = some now
default_and_enforce now (some value) = if ltb now value then none else some value

-- Two rows with the key (account_id, feed_id, spec_hash).
unfoldable pub same_source : Source → Source → Bool
same_source a b =
    a.account_id == b.account_id && a.feed_id == b.feed_id && a.spec_hash == b.spec_hash

-- `bulk_create(..., ignore_conflicts=True)`.
unfoldable pub bulk_create : List Source → List Source → List Source
unfolding same_source exists
bulk_create [] rows = rows
bulk_create (new ∷ news) rows =
    bulk_create news (if exists (same_source new) rows then rows else rows ++ new ∷ [])

-- A spec has its hash, `_hash_spec`.
module _ (hash_spec : ℕ → ℕ) where
  unfoldable pub has_hash : ℕ → List SourceInput → Bool
  unfolding exists
  has_hash h items = exists (λ item. hash_spec item.spec == h) items

  -- `new_by_hash`, the first input of a hash: `seen` are the inputs so far.
  unfoldable pub new_by_hash : List SourceInput → List SourceInput → List SourceInput
  unfolding has_hash
  new_by_hash seen [] = seen
  new_by_hash seen (item ∷ items) =
      let later = new_by_hash (seen ++ item ∷ []) items in
      let same = new_by_hash seen items in
      if has_hash (hash_spec item.spec) seen then same else later

  unfoldable pub row_exists : List Source → SourceInput → Bool
  unfolding exists
  row_exists existing item = exists (λ row. row.spec_hash == hash_spec item.spec) existing

  -- The tallies, from the inputs and the feed's rows; no two rows of a feed have one hash.
  unfoldable pub tally : List SourceInput → List Source → SourceSetResult
  unfolding row_exists has_hash count
  tally items existing = record {
    added = count (λ item. not (row_exists existing item)) items;
    removed = count (λ row. not (has_hash row.spec_hash items)) existing;
    persisted = count (row_exists existing) items;
    source_count = length items;
  }

  unfoldable pub is_dirty : List Source → SourceInput → Bool
  unfolding exists
  is_dirty existing item =
      exists
        (λ row.
          row.spec_hash == hash_spec item.spec
          && not (row.meta == item.meta && row.field_map == item.field_map))
        existing

  -- The UPDATE per dirty hash.
  unfoldable pub refresh_rows : ℕ → Feed → List SourceInput → List Source → List Source
  unfolding scoped update
  refresh_rows account feed [] rows = rows
  refresh_rows account feed (item ∷ items) rows = refresh_rows account feed items (
      update (λ row. scoped account feed row && row.spec_hash == hash_spec item.spec)
        (λ row. record row { meta = item.meta; field_map = item.field_map }) rows)

-- ... and the kind of its connector.
module _ (hash_spec kind_of : ℕ → ℕ) where
  unfoldable pub new_row : ℕ → Feed → ℕ → ℕ → SourceInput → Source
  new_row account feed id watermark item = record {
    id = id;
    account_id = account;
    feed_id = feed.id;
    kind = kind_of item.spec;
    spec = item.spec;
    spec_hash = hash_spec item.spec;
    last_event_at = some watermark;
    meta = item.meta;
    field_map = item.field_map;
  }

  -- The rows of the added inputs, with fresh ids.
  unfoldable pub new_rows : ℕ → ℕ → Feed → ℕ → List SourceInput → Option (List Source)
  unfolding default_and_enforce new_row
  new_rows now account feed id [] = some []
  new_rows now account feed id (item ∷ items) =
      let rest = new_rows now account feed (suc id) items in
      elim (default_and_enforce now item.last_event_at) [
        | none ↦ none
        | some watermark ↦ map_option (λ rows. new_row account feed id watermark item ∷ rows) rest
      ]

  -- The transaction of `set_sources`: `none` is a watermark error, which rolls it back.
  unfoldable pub reconcile :
      ℕ → ℕ → Feed → ℕ → List SourceInput → List Source → Option (List Source)
  unfolding scoped select has_hash remove row_exists new_rows bulk_create is_dirty refresh_rows
  reconcile now account feed id items rows =
      let existing = select (scoped account feed) rows in
      let kept =
        remove (λ row. scoped account feed row && not (has_hash hash_spec row.spec_hash items))
          rows in
      map_option
        (λ created.
          refresh_rows hash_spec account feed (select (is_dirty hash_spec existing) items)
            (bulk_create created kept))
        (new_rows now account feed id
          (select (λ item. not (row_exists hash_spec existing item)) items))

-- `registered` is the lookup of a kind's connector, `safe` is `_enforce_source_url_safety`.
module _ (hash_spec kind_of : ℕ → ℕ) (registered safe : ℕ → Bool) where
  -- `SourceService.set_sources`, with the clock at its start and at the release of its lock.
  module _ {C : Type 0} (cache : Cache String ℕ C) (locks : LockSettings) (sha256 : String → String)
      (show_id : ℕ → String) where
    -- The part under `feed_set_lock`.
    unfoldable pub set_locked :
        ℕ
        → ℕ
        → ℕ
        → ℕ
        → Feed
        → ℕ
        → List SourceInput
        → List Source
        → C
        → (SetError ⊎ SourceSetResult) × List Source × C
    unfolding reconcile tally select scoped lock_name acquire release
    set_locked now ended token account feed id items rows c =
        let name = lock_name sha256 (feed_set_lock (show_id feed.id)) in
        let (lease, held) = acquire cache now name locks.feed_set_lock_timeout_seconds token c in
        let after = release cache ended lease.acquired name token held in
        if not lease.acquired
        then (inl concurrent_set_sources, rows, after)
        else elim (reconcile hash_spec kind_of now account feed id items rows) [
          | none ↦ (inl source_watermark_error, rows, after)
          | some written ↦
              (inr (tally hash_spec items (select (scoped account feed) rows)), written, after)
        ]

    unfoldable pub set_sources :
        ℕ
        → ℕ
        → ℕ
        → ℕ
        → Feed
        → ℕ
        → Bool
        → List SourceInput
        → List Source
        → C
        → (SetError ⊎ SourceSetResult) × List Source × C
    unfolding exists new_by_hash tally select scoped set_locked
    set_sources now ended token account feed id dry_run items rows c =
        let wanted = new_by_hash hash_spec [] items in
        if not (feed.account_id == account)
        then (inl out_of_scope, rows, c)
        else if not feed.is_curated
        then (inl policy_error, rows, c)
        else if exists (λ item. not (registered (kind_of item.spec))) items
        then (inl policy_error, rows, c)
        else if exists (λ item. not (safe item.spec)) items
        then (inl policy_error, rows, c)
        else if dry_run
        then (inr (tally hash_spec wanted (select (scoped account feed) rows)), rows, c)
        else set_locked now ended token account feed id wanted rows c
