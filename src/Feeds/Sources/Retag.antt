-- ===== src/Feeds/Sources/Retag.antt =====
-- The updates of tags in apps/core/feeds/services/sources.py, by hash.
use openmagpie.Prelude.{
  ℕ, ◌≡◌, refl, ◌∙◌, ap, Bool, true, false, ◌&&◌, Option, none, some, List, [], ◌∷◌, ◌==◌,
  if◌then◌else◌, arith, Bool-cases, Option-cases, inl, inr, update, find, Unique, find-update,
  find-true, find-absent,
}
use mathlib.Core.Option.{map as map_option}
use openmagpie.Feeds.Model.{Feed, Source, SourceInput}
use openmagpie.Feeds.Sources.{scoped, refresh_rows}
use openmagpie.Feeds.Sources.View.{Entry, entry, is_row, view, lookup, fresh}

unfoldable pub retag : SourceInput → Entry → Entry
retag item e = record e { meta = item.meta; field_map = item.field_map }

unfoldable pub refreshed : Option SourceInput → Option Entry → Option Entry
refreshed none e = e
refreshed (some item) e = map_option (retag item) e

module _ (hash_spec : ℕ → ℕ) where
  unfoldable pub same_input : SourceInput → SourceInput → Bool
  same_input a b = hash_spec a.spec == hash_spec b.spec

  -- The sources as a map from hashes: the wanted ones stay with their watermark, or are new.
  unfoldable pub merge : ℕ → Option SourceInput → Option Entry → Option Entry
  unfolding retag
  merge now none old = none
  merge now (some item) none = some (fresh hash_spec now item)
  merge now (some item) (some old) = some (retag item old)

  module _ (account : ℕ) (feed : Feed) where
    view-update :
        (h : ℕ) (item : SourceInput) (rows : List Source)
        → view account feed
            (update
              (λ row. scoped account feed row && row.spec_hash == hash_spec item.spec)
              (λ row. record row { meta = item.meta; field_map = item.field_map })
              rows)
            h
          ≡ (if hash_spec item.spec == h
              then map_option (retag item) (view account feed rows h)
              else view account feed rows h)
    unfolding view is_row scoped entry retag
    view-update h item rows =
        ap (map_option entry) (find-update (is_row account feed h) _ _ (λ x. refl) rows)
        ∙ elim (Option-cases (find (is_row account feed h) rows)) [
          | inl absent ↦ rw absent (ground arith)
          | inr (x, found) ↦
              let passes = find-true (is_row account feed h) rows x found in
              rw found (retags x passes)
        ]
      where
        retags :
            (x : Source)
            → is_row account feed h x ≡ true
            → some (
                entry (
                  if scoped account feed x && x.spec_hash == hash_spec item.spec
                  then record x { meta = item.meta; field_map = item.field_map }
                  else x))
              ≡ (if hash_spec item.spec == h then some (retag item (entry x)) else some (entry x))
        retags x passes = elim (Bool-cases (hash_spec item.spec == h)) [
          | inl hit ↦
              let matched : (scoped account feed x && x.spec_hash == hash_spec item.spec) ≡ true =
                ground arith in
              rw (matched, hit) refl
          | inr miss ↦
              let other : (scoped account feed x && x.spec_hash == hash_spec item.spec) ≡ false =
                ground arith in
              rw (other, miss) refl
        ]

    pub view-refresh_rows :
        (h : ℕ) (items : List SourceInput) (rows : List Source)
        → Unique same_input items
        → view account feed (refresh_rows hash_spec account feed items rows) h
          ≡ refreshed (lookup hash_spec h items) (view account feed rows h)
    unfolding refresh_rows refreshed lookup find same_input
    view-refresh_rows h [] rows u = refl
    view-refresh_rows h (item ∷ items) rows u =
        view-refresh_rows h items _ u.1
        ∙ rw (view-update h item rows) (elim (Bool-cases (hash_spec item.spec == h)) [
          | inl hit ↦
              rw
                (
                  hit,
                  find-absent (λ x. hash_spec x.spec == h) (same_input item) (λ x e. ground arith)
                      items u.0,
                )
                refl
          | inr miss ↦ rw miss refl
        ])
