-- ===== src/Feeds/Watermarks/Seek.antt =====
-- What a seek of apps/core/feeds/services/_sources_seek.py does to the watermarks.
use openmagpie.Prelude.{
  ℕ, ◌+◌, ◌-◌, ◌≤◌, ◌≡◌, ◌≢◌, refl, ap₂, sym, ap, Bool, true, false, ◌&&◌, ◌||◌, Option, none, some,
  List, [], ◌∷◌, ◌==◌, ltb, if◌then◌else◌, arith, Bool-cases, Option-cases, inl, inr, count, update,
  All, count-All, update-All,
}
use openmagpie.Schema.RunWindows.{
  WindowValue, keyword, oldest, resolve_window_value, resolve_keyword,
}
use openmagpie.Feeds.Model.{Feed, Source}
use openmagpie.Feeds.Sources.{scoped}
use openmagpie.Feeds.Watermarks.{
  is_null, is_before, is_after, is_at, mark, advance_guard, advance_watermark, seek_rows,
  resolve_target, seek_floor, enforce_source_watermark, enforce_seek_floor,
}

mark-same : (to : ℕ) (row : Source) → row.last_event_at ≡ some to → mark to row ≡ row
mark-same to row e = ap (λ w. record row { last_event_at = w }) (sym e)

-- A watermark that a seek does not move is at the target.
level :
    {to : ℕ} (o : Option ℕ)
    → (is_before to o || is_null o) ≡ false
    → is_after to o ≡ false
    → o ≡ some to
unfolding is_before is_null is_after
level none early late = ground arith
level (some at) early late = ground arith

module _ (qs : Source → Bool) (to : ℕ) (same : (row : Source) → qs (mark to row) ≡ qs row) where
  abbrev forward : Source → Bool
  forward row = qs row && (is_before to row.last_event_at || is_null row.last_event_at)

  abbrev backward : Source → Bool
  backward row = qs row && is_after to row.last_event_at

  abbrev at_target : Source → Bool
  at_target row = qs row && is_at to row.last_event_at

  abbrev moved : Source → Source
  moved row = if forward row then mark to row else row

  module _ (row : Source) where
    head_sought :
        (if backward (moved row) then mark to (moved row) else moved row)
        ≡ (if qs row then mark to row else row)
    unfolding is_before is_after is_null
    head_sought = elim (Bool-cases (forward row)) [
      | inl early ↦
          let late : is_after to (some to) ≡ false = ground arith in
          let inside : qs row ≡ true = ground arith in rw (early, same row, inside, late) refl
      | inr not_early ↦ elim (Bool-cases (backward row)) [
        | inl late ↦ let inside : qs row ≡ true = ground arith in rw (not_early, late, inside) refl
        | inr not_late ↦
            rw (not_early, not_late)
              (elim (Bool-cases (qs row)) [
                | inr outside ↦ rw outside refl
                | inl inside ↦
                    rw inside (
                      sym
                        (mark-same to row (level row.last_event_at (ground arith) (ground arith))))
              ])
      ]
    ]

    head_backward : backward (moved row) ≡ backward row
    unfolding is_before is_after is_null
    head_backward = elim (Bool-cases (forward row)) [
      | inl early ↦
          rw (early, same row)
            (elim (Option-cases row.last_event_at) [
              | inl unset ↦ rw unset (ground arith)
              | inr (at, seen) ↦ rw seen (ground arith)
            ])
      | inr late ↦ rw late refl
    ]

  written_lem :
      (rows : List Source)
      → update backward (mark to) (update forward (mark to) rows) ≡ update qs (mark to) rows
  unfolding update
  written_lem [] = refl
  written_lem (row ∷ rows) = ap₂ ◌∷◌ (head_sought row) (written_lem rows)

  rewound_lem :
      (rows : List Source) → count backward (update forward (mark to) rows) ≡ count backward rows
  unfolding update count
  rewound_lem [] = refl
  rewound_lem (row ∷ rows) = rw (head_backward row, rewound_lem rows) refl

  parts :
      (rows : List Source)
      → count forward rows + count backward rows + count at_target rows ≡ count qs rows
  unfolding count is_before is_after is_at is_null
  parts [] = refl
  parts (row ∷ rows) = elim (Option-cases row.last_event_at) [
    | inl unset ↦ rw unset (ground (arith, parts rows))
    | inr (at, seen) ↦ rw seen (ground (arith, parts rows))
  ]

  all_at : (rows : List Source) → count at_target (update qs (mark to) rows) ≡ count qs rows
  unfolding count update is_at
  all_at [] = refl
  all_at (row ∷ rows) = ground (arith, same row, all_at rows)

  -- For a queryset that does not depend on the watermark, a seek puts exactly the rows of the
  -- queryset at the target. It reports the tallies of the dry run, which add up to the number of
  -- the queryset's rows.
  pub seek_rows_lem :
      (rows : List Source)
      → (seek_rows qs to false rows
          ≡ (record (seek_rows qs to true rows).0 { dry_run = false }, update qs (mark to) rows))
        × ((seek_rows qs to true rows).0.source_count ≡ count qs rows)
  unfolding seek_rows
  seek_rows_lem rows = (rw (written_lem rows, rewound_lem rows, all_at rows, rest) refl, parts rows)
    where
      rest : count qs rows - count forward rows - count backward rows ≡ count at_target rows
      rest = omega (arith, parts rows)

stale_guard :
    (to value : ℕ) (read : Option ℕ) → read ≢ some to → advance_guard read value (some to) ≡ false
unfolding advance_guard is_null is_at
stale_guard to value none stale = refl
stale_guard to value (some at) stale = elim (Bool-cases (to == at)) [
  | inl same ↦ absurd (stale (ap some (ground arith)))
  | inr apart ↦ rw apart refl
]

-- The seek moved the mark away from what the poll read.
module _ (account : ℕ) (feed : Feed) (to : ℕ) (source : Source) (value : ℕ)
    (stale : source.last_event_at ≢ some to) where
  abbrev guarded : Source → Bool
  guarded row =
      row.account_id == account
      && row.id == source.id
      && advance_guard source.last_event_at value row.last_event_at

  guarded-mark :
      (row : Source)
      → (row.id ≡ source.id → row.feed_id ≡ feed.id)
      → guarded (if scoped account feed row then mark to row else row) ≡ false
  unfolding scoped advance_guard is_null is_at is_before
  guarded-mark row own = elim (Bool-cases (scoped account feed row)) [
    | inl inside ↦ rw (inside, stale_guard to value source.last_event_at stale) (ground arith)
    | inr outside ↦ rw outside (ground arith)
  ]

  unguarded :
      (rows : List Source)
      → All (λ row. row.id ≡ source.id → row.feed_id ≡ feed.id) rows
      → All (λ row. guarded row ≡ false) (update (scoped account feed) (mark to) rows)
  unfolding update
  unguarded [] own = tt
  unguarded (row ∷ rows) own = (guarded-mark row own.0, unguarded rows own.1)

  -- When the rows with the id of a source are of the feed, and a poll read another watermark of
  -- the source than the target, then after a seek of the feed the poll's `advance_watermark` to
  -- any value changes no row.
  pub seek_rows-advance_watermark :
      (rows : List Source)
      → All (λ row. row.id ≡ source.id → row.feed_id ≡ feed.id) rows
      → advance_watermark account source value (seek_rows (scoped account feed) to false rows).1
        ≡ (0, (seek_rows (scoped account feed) to false rows).1)
  unfolding advance_watermark scoped
  seek_rows-advance_watermark rows own =
      rw
        (
          ap (λ r. r.1) (seek_rows_lem (scoped account feed) to (λ row. refl) rows).0,
          count-All guarded false _ (unguarded rows own),
          update-All guarded (mark value) _ (unguarded rows own),
        )
        refl

-- A seek target that is accepted is not before the floor of the feed's retention, and not after
-- the clock of the future check.
pub resolve_target_bounds :
    (feed : Feed) (raw : WindowValue) (now later to : ℕ)
    → resolve_target feed raw now later ≡ some to
    → (seek_floor feed.retention_days now ≤ to) × (to ≤ later)
unfolding resolve_target enforce_seek_floor enforce_source_watermark
resolve_target_bounds feed raw now later to e =
    elim (Option-cases (resolve_window_value raw now (some (seek_floor feed.retention_days now)))) [
      | inl h ↦ absurd (ground arith)
      | inr (at, h) ↦ elim (Bool-cases (ltb later at)) [
        | inl future ↦ absurd (ground arith)
        | inr past ↦ elim (Bool-cases (ltb at (seek_floor feed.retention_days now))) [
          | inl deep ↦ absurd (ground arith)
          | inr kept ↦ ground arith
        ]
      ]
    ]

-- `oldest` is always accepted, and is the deepest target.
resolve_target-oldest :
    (feed : Feed) (now later : ℕ)
    → now ≤ later
    → resolve_target feed (keyword oldest) now later ≡ some (seek_floor feed.retention_days now)
unfolding resolve_target enforce_seek_floor enforce_source_watermark resolve_window_value
    resolve_keyword seek_floor
resolve_target-oldest feed now later h = ground arith
