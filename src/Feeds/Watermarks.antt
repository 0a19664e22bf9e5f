-- ===== src/Feeds/Watermarks.antt =====
-- The watermarks of apps/core/feeds/services/sources.py (`advance_watermark`) and
-- apps/core/feeds/services/_sources_seek.py, with the guards of apps/core/feeds/policy.py.
pub mod Seek
use openmagpie.Prelude.{
  ℕ, ◌+◌, ◌-◌, ◌*◌, Bool, true, false, not, ◌&&◌, ◌||◌, Option, none, some, List, ◌==◌, ltb,
  if◌then◌else◌, count, update, find, remove, ◌⊎◌, inl, inr,
}
use openmagpie.Schema.RunWindows.{WindowValue, resolve_window_value}
use openmagpie.Feeds.Model.{Feed, Source, SourceSeekResult}
use openmagpie.Feeds.Sources.{scoped}

-- `last_event_at` is NULL or is before, at or after a time.
unfoldable pub is_null : Option ℕ → Bool
is_null none = true
is_null (some at) = false

unfoldable pub is_before : ℕ → Option ℕ → Bool
is_before to none = false
is_before to (some at) = ltb at to

unfoldable pub is_after : ℕ → Option ℕ → Bool
is_after to none = false
is_after to (some at) = ltb to at

unfoldable pub is_at : ℕ → Option ℕ → Bool
is_at to none = false
is_at to (some at) = at == to

abbrev pub mark : ℕ → Source → Source
mark to row = record row { last_event_at = some to }

-- The `guard` of `advance_watermark`, on the watermark that the poll read.
unfoldable pub advance_guard : Option ℕ → ℕ → Option ℕ → Bool
unfolding is_null is_at is_before
advance_guard none value current = is_null current
advance_guard (some read_at) value current = is_at read_at current && is_before value current

-- `SourceService.advance_watermark`: the number of rows that it changed.
unfoldable pub advance_watermark : ℕ → Source → ℕ → List Source → ℕ × List Source
unfolding advance_guard count update
advance_watermark account source value rows =
    let guarded : Source → Bool = λ row.
      row.account_id == account
      && row.id == source.id
      && advance_guard source.last_event_at value row.last_event_at in
    (count guarded rows, update guarded (mark value) rows)

-- `SourceSeekMixin._seek_rows`, on the rows of a queryset.
unfoldable pub seek_rows : (Source → Bool) → ℕ → Bool → List Source → SourceSeekResult × List Source
unfolding is_null is_before is_after is_at count update
seek_rows qs to dry_run rows =
    let forward : Source → Bool =
      λ row. qs row && (is_before to row.last_event_at || is_null row.last_event_at) in
    let backward : Source → Bool = λ row. qs row && is_after to row.last_event_at in
    let at_target : Source → Bool = λ row. qs row && is_at to row.last_event_at in
    let advanced = count forward rows in
    let moved = update forward (mark to) rows in
    let rewound = count backward moved in
    let written = update backward (mark to) moved in
    let unchanged = count at_target written - advanced - rewound in
    if dry_run
    then (
      record {
        advanced = advanced;
        rewound = count backward rows;
        unchanged = count at_target rows;
        source_count = advanced + count backward rows + count at_target rows;
        to = to;
        dry_run = true;
      },
      rows,
    )
    else (
      record {
        advanced = advanced;
        rewound = rewound;
        unchanged = unchanged;
        source_count = advanced + rewound + unchanged;
        to = to;
        dry_run = false;
      },
      written,
    )

-- `enforce_source_watermark` and `enforce_seek_floor` of policy.py: `none` is the error.
unfoldable pub enforce_source_watermark : ℕ → ℕ → Option ℕ
enforce_source_watermark now value = if ltb now value then none else some value

unfoldable pub seek_floor : ℕ → ℕ → ℕ
seek_floor retention_days now = now - retention_days * 86400

unfoldable pub enforce_seek_floor : ℕ → ℕ → ℕ → Option ℕ
unfolding seek_floor
enforce_seek_floor retention_days now to =
    if ltb to (seek_floor retention_days now) then none else some to

-- `SourceSeekMixin._resolve_target`. The future check reads the clock again, at `later`.
unfoldable pub resolve_target : Feed → WindowValue → ℕ → ℕ → Option ℕ
unfolding seek_floor resolve_window_value enforce_source_watermark enforce_seek_floor
resolve_target feed raw now later =
    elim (resolve_window_value raw now (some (seek_floor feed.retention_days now))) [
      | none ↦ none
      | some to ↦ elim (enforce_source_watermark later to) [
        | none ↦ none
        | some to ↦ enforce_seek_floor feed.retention_days now to
      ]
    ]

-- A seek that raises: a feed of another account, a feed that is not curated, a rejected target.
pub data SeekError : Type 0 where
  seek_out_of_scope : SeekError
  seek_not_curated : SeekError
  seek_watermark_error : SeekError

-- `SourceSeekMixin.seek`.
unfoldable pub seek :
    ℕ
    → Feed
    → WindowValue
    → Bool
    → ℕ
    → ℕ
    → List Source
    → (SeekError ⊎ SourceSeekResult) × List Source
unfolding resolve_target seek_rows scoped
seek account feed raw dry_run now later rows =
    let done : ℕ → SourceSeekResult × List Source =
      λ to. seek_rows (scoped account feed) to dry_run rows in
    if not (feed.account_id == account)
    then (inl seek_out_of_scope, rows)
    else if not feed.is_curated
    then (inl seek_not_curated, rows)
    else elim (resolve_target feed raw now later) [
      | none ↦ (inl seek_watermark_error, rows)
      | some to ↦ (inr (done to).0, (done to).1)
    ]

-- `SourceSeekMixin._resolve_owned_source`: a source by its own id, with its feed.
pub data OwnedError : Type 0 where
  source_does_not_exist : OwnedError
  owned_policy_error : OwnedError

unfoldable pub resolve_owned_source : ℕ → ℕ → List Feed → List Source → OwnedError ⊎ (Source × Feed)
unfolding find
resolve_owned_source account source_id feeds rows =
    elim (find (λ row. row.id == source_id && row.account_id == account) rows) [
      | none ↦ inl source_does_not_exist
      | some source ↦
          elim (find (λ feed. feed.id == source.feed_id && feed.account_id == account) feeds) [
            | none ↦ inl source_does_not_exist
            | some feed ↦ if feed.is_curated then inr (source, feed) else inl owned_policy_error
          ]
    ]

-- `SourceService.remove_by_id`: the number of rows that it deleted.
unfoldable pub remove_by_id : ℕ → ℕ → List Feed → List Source → (OwnedError ⊎ ℕ) × List Source
unfolding resolve_owned_source count remove
remove_by_id account source_id feeds rows =
    elim (resolve_owned_source account source_id feeds rows) [
      | inl error ↦ (inl error, rows)
      | inr (source, feed) ↦
          (inr (count (λ row. row.id == source.id) rows), remove (λ row. row.id == source.id) rows)
    ]

-- `SourceSeekMixin.seek_by_id`.
unfoldable pub seek_by_id :
    ℕ
    → ℕ
    → WindowValue
    → Bool
    → ℕ
    → ℕ
    → List Feed
    → List Source
    → (OwnedError ⊎ (SeekError ⊎ SourceSeekResult)) × List Source
unfolding resolve_owned_source resolve_target seek_rows scoped
seek_by_id account source_id raw dry_run now later feeds rows =
    elim (resolve_owned_source account source_id feeds rows) [
      | inl error ↦ (inl error, rows)
      | inr (source, feed) ↦ elim (resolve_target feed raw now later) [
        | none ↦ (inr (inl seek_watermark_error), rows)
        | some to ↦
            let (result, written) =
              seek_rows (λ row. scoped account feed row && row.id == source.id) to dry_run rows in
            (inr (inr result), written)
      ]
    ]
