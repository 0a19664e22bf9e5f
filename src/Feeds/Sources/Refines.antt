-- ===== src/Feeds/Sources/Refines.antt =====
-- `SourceService.set_sources` of apps/core/feeds/services/sources.py as a map from hashes.
use openmagpie.Prelude.{
  ℕ, ◌≡◌, refl, ◌∙◌, ap, Bool, true, false, not, ◌&&◌, Option, none, some, List, ◌==◌,
  if◌then◌else◌, arith, Bool-cases, inl, inr, select, remove, find, Unique, is_some, or_else,
  find-remove, find-select, exists-find, find-true, find-filter, find-absent, find-select_decided,
  exists-false, map-some, ==_iff, Unique-select,
}
use mathlib.Core.Option.{map as map_option}
use openmagpie.Feeds.Model.{Feed, Source, SourceInput}
use openmagpie.Feeds.Sources.{
  scoped, has_hash, row_exists, new_rows, bulk_create, is_dirty, reconcile,
}
use openmagpie.Feeds.Sources.View.{
  entry, is_row, view, lookup, fresh, find-bulk_create, find-new_rows,
}
use openmagpie.Feeds.Sources.Retag.{retag, refreshed, same_input, merge, view-refresh_rows}

module _ (hash_spec : ℕ → ℕ) where
  module _ (account : ℕ) (feed : Feed) (items : List SourceInput) (rows : List Source) (h : ℕ)
      (kind_of : ℕ → ℕ) where
    abbrev existing : List Source
    existing = select (scoped account feed) rows

    -- Whether the feed has the hash.
    abbrev has_row : Bool
    has_row = is_some (find (is_row account feed h) rows)

    find-existing : find (λ row. row.spec_hash == h) existing ≡ find (is_row account feed h) rows
    unfolding is_row
    find-existing = find-select (λ row. row.spec_hash == h) (scoped account feed) rows

    row_exists-has_row :
        (item : SourceInput)
        → (hash_spec item.spec == h) ≡ true
        → row_exists hash_spec existing item ≡ has_row
    unfolding row_exists
    row_exists-has_row item hit =
        rw ((==_iff (hash_spec item.spec) h).0 hit)
          (exists-find (λ row. row.spec_hash == h) existing ∙ ap is_some find-existing)

    lookup-added :
        lookup hash_spec h (select (λ item. not (row_exists hash_spec existing item)) items)
        ≡ (if not has_row then lookup hash_spec h items else none)
    unfolding lookup
    lookup-added =
        find-select_decided (λ item. hash_spec item.spec == h)
          (λ item. not (row_exists hash_spec existing item)) (not has_row)
          (λ item hit. ap not (row_exists-has_row item hit)) items

    find-kept :
        find (is_row account feed h) (
          remove
            (λ row. scoped account feed row && not (has_hash hash_spec row.spec_hash items))
            rows)
        ≡ (if is_some (lookup hash_spec h items) then find (is_row account feed h) rows else none)
    unfolding has_hash lookup is_row
    find-kept =
        find-remove (is_row account feed h)
          (λ row. scoped account feed row && not (has_hash hash_spec row.spec_hash items))
          (not (is_some (lookup hash_spec h items)))
          (λ row e.
            let inside : scoped account feed row ≡ true = ground arith in
            let same : row.spec_hash ≡ h = ground arith in
            rw (inside, same) (ap not (exists-find (λ item. hash_spec item.spec == h) items)))
          rows
        ∙ ground arith

    lookup-dirty :
        Unique (same_input hash_spec) items
        → lookup hash_spec h (select (is_dirty hash_spec existing) items)
          ≡ elim (lookup hash_spec h items) [
            | none ↦ none
            | some item ↦ if is_dirty hash_spec existing item then some item else none
          ]
    unfolding lookup same_input
    lookup-dirty u =
        find-select (λ item. hash_spec item.spec == h) (is_dirty hash_spec existing) items
        ∙ find-filter (λ item. hash_spec item.spec == h) (is_dirty hash_spec existing)
            (same_input hash_spec) (λ x y a b. ground arith) items u

    -- A row with the hash that is not dirty has the input's tags already.
    clean :
        (item : SourceInput) (row : Source)
        → (hash_spec item.spec == h) ≡ true
        → find (is_row account feed h) rows ≡ some row
        → is_dirty hash_spec existing item ≡ false
        → entry row ≡ retag item (entry row)
    unfolding is_dirty entry retag
    clean item row hit found tidy =
        let hash : (row.spec_hash == h) ≡ true =
          find-true (λ row. row.spec_hash == h) existing row (find-existing ∙ found) in
        let same =
          exists-false (λ row. row.spec_hash == h) _ existing row tidy (find-existing ∙ found) in
        let m : row.meta ≡ item.meta = ground arith in
        let f : row.field_map ≡ item.field_map = ground arith in rw (m, f) refl

    untouched :
        (item : SourceInput)
        → (hash_spec item.spec == h) ≡ true
        → find (is_row account feed h) rows ≡ none
        → is_dirty hash_spec existing item ≡ false
    unfolding is_dirty
    untouched item hit absent =
        exists-find _ existing
        ∙ ap is_some (
            find-absent _ (λ row. row.spec_hash == h) (λ x e. ground arith) existing
              (exists-find (λ row. row.spec_hash == h) existing
                ∙ ap is_some (find-existing ∙ absent)))

    -- The parts together, for the input and the row of the hash.
    combined :
        (now : ℕ) (created : List Source) (wanted : Option SourceInput) (old : Option Source)
        → lookup hash_spec h items ≡ wanted
        → find (is_row account feed h) rows ≡ old
        → view account feed created h
          ≡ map_option (fresh hash_spec now) (if not (is_some old) then wanted else none)
        → refreshed
            (elim wanted [
              | none ↦ none
              | some item ↦ if is_dirty hash_spec existing item then some item else none
            ])
            (map_option entry (
              or_else
                (if is_some wanted then old else none)
                (find (is_row account feed h) created)))
          ≡ merge hash_spec now wanted (map_option entry old)
    unfolding refreshed merge or_else view lookup
    combined now created none none asked found new = new
    combined now created none (some row) asked found new = new
    combined now created (some item) none asked found new =
        rw (untouched item (find-true (λ x. hash_spec x.spec == h) items item asked) found) new
    combined now created (some item) (some row) asked found new =
        elim (Bool-cases (is_dirty hash_spec existing item)) [
          | inl dirty ↦ rw dirty refl
          | inr tidy ↦ rw tidy (
              ap some (
                clean item row (find-true (λ x. hash_spec x.spec == h) items item asked) found
                  tidy))
        ]

    pub reconcile-view :
        (now id : ℕ) (written : List Source)
        → Unique (same_input hash_spec) items
        → reconcile hash_spec kind_of now account feed id items rows ≡ some written
        → view account feed written h
          ≡ merge hash_spec now (lookup hash_spec h items) (view account feed rows h)
    unfolding reconcile view
    reconcile-view now id written u e =
        let (created, fine, whole) =
          map-some _ (new_rows hash_spec kind_of now account feed id added) written e in
        rw whole (
          view-refresh_rows hash_spec account feed h dirty (bulk_create created kept)
            (Unique-select (same_input hash_spec) (is_dirty hash_spec existing) items u)
          ∙ rw (lookup-dirty u, find-bulk_create account feed h created kept, find-kept)
              (combined now created (lookup hash_spec h items) (find (is_row account feed h) rows)
                refl refl
                (find-new_rows hash_spec kind_of account feed now id h added created fine
                  ∙ ap (map_option (fresh hash_spec now)) lookup-added)))
      where
        added : List SourceInput
        added = select (λ item. not (row_exists hash_spec existing item)) items

        dirty : List SourceInput
        dirty = select (is_dirty hash_spec existing) items

        kept : List Source
        kept =
            remove (λ row. scoped account feed row && not (has_hash hash_spec row.spec_hash items))
              rows
