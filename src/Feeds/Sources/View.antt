-- ===== src/Feeds/Sources/View.antt =====
-- The rows that the parts of apps/core/feeds/services/sources.py leave under a hash.
use openmagpie.Prelude.{
  ℕ, suc, ◌≡◌, refl, sym, ◌∙◌, Bool, true, false, ◌&&◌, Option, none, some, List, [], ◌∷◌, ◌++◌,
  ◌==◌, if◌then◌else◌, arith, Bool-cases, Option-cases, inl, inr, find, exists, or_else,
  find-append, exists-find, ==-refl, exists_ext, ◌⊎◌,
}
use mathlib.Core.Option.{map as map_option}
use openmagpie.Feeds.Model.{Feed, Source, SourceInput}
use openmagpie.Feeds.Sources.{
  scoped, new_row, new_rows, default_and_enforce, same_source, bulk_create,
}

-- What an operator has of a source: its watermark, tags and hints.
pub record Entry : Type 0 where
  pub last_event_at : Option ℕ
  pub meta : ℕ
  pub field_map : ℕ

unfoldable pub entry : Source → Entry
entry row = record { last_event_at = row.last_event_at; meta = row.meta; field_map = row.field_map }

-- The row of the feed with a hash.
unfoldable pub is_row : ℕ → Feed → ℕ → Source → Bool
unfolding scoped
is_row account feed h row = scoped account feed row && row.spec_hash == h

module _ (account : ℕ) (feed : Feed) where
  unfoldable pub view : List Source → ℕ → Option Entry
  unfolding is_row find entry
  view rows h = map_option entry (find (is_row account feed h) rows)

module _ (hash_spec : ℕ → ℕ) where
  unfoldable pub lookup : ℕ → List SourceInput → Option SourceInput
  unfolding find
  lookup h items = find (λ item. hash_spec item.spec == h) items

  -- The row of an input that the feed did not have.
  unfoldable pub fresh : ℕ → SourceInput → Entry
  fresh now item = record {
    last_event_at = some (elim item.last_event_at [ none ↦ now | some value ↦ value ]);
    meta = item.meta;
    field_map = item.field_map;
  }

is_row-same_source :
    (account h : ℕ) (feed : Feed) (a b : Source)
    → is_row account feed h a ≡ true
    → same_source a b ≡ is_row account feed h b
unfolding same_source is_row scoped
is_row-same_source account h feed a b p = ground arith

module _ (account : ℕ) (feed : Feed) where
  pub find-bulk_create :
      (h : ℕ) (news rows : List Source)
      → find (is_row account feed h) (bulk_create news rows)
        ≡ or_else (find (is_row account feed h) rows) (find (is_row account feed h) news)
  unfolding bulk_create or_else find
  find-bulk_create h [] rows = ground arith
  find-bulk_create h (new ∷ news) rows =
      find-bulk_create h news _
      ∙ step (Bool-cases (exists (same_source new) rows)) (Bool-cases (is_row account feed h new))
    where
      p : Source → Bool
      p = is_row account feed h

      step :
          (exists (same_source new) rows ≡ true) ⊎ (exists (same_source new) rows ≡ false)
          → (p new ≡ true) ⊎ (p new ≡ false)
          → or_else
              (find p (if exists (same_source new) rows then rows else rows ++ new ∷ []))
              (find p news)
            ≡ or_else (find p rows) (if p new then some new else find p news)
      step (inr absent) passes = rw (absent, find-append p rows (new ∷ [])) (ground arith)
      step (inl conflict) (inr fails) = rw (conflict, fails) refl
      step (inl conflict) (inl passes) =
          let found =
            sym (exists-find p rows)
            ∙ sym (
                exists_ext (same_source new) p (λ x. is_row-same_source account h feed new x passes)
                  rows)
            ∙ conflict in
          rw (conflict, passes) (ground arith)

default-fresh :
    (now watermark : ℕ) (given : Option ℕ)
    → default_and_enforce now given ≡ some watermark
    → watermark ≡ elim given [ none ↦ now | some value ↦ value ]
unfolding default_and_enforce
default-fresh now watermark none e = ground arith
default-fresh now watermark (some value) e = ground arith

module _ (hash_spec kind_of : ℕ → ℕ) (account : ℕ) (feed : Feed) where
  new_rows-cons :
      (now id : ℕ) (item : SourceInput) (items : List SourceInput) (created : List Source)
      → new_rows hash_spec kind_of now account feed id (item ∷ items) ≡ some created
      → (rest : List Source) × (watermark : ℕ) × (new_rows hash_spec kind_of now account feed
            (suc id)
            items
          ≡ some rest)
        × (default_and_enforce now item.last_event_at ≡ some watermark)
        × (created ≡ new_row hash_spec kind_of account feed id watermark item ∷ rest)
  unfolding new_rows
  new_rows-cons now id item items created e =
      elim (Option-cases (new_rows hash_spec kind_of now account feed (suc id) items)) [
        | inl failed ↦ elim (Option-cases (default_and_enforce now item.last_event_at)) [
          | inl early ↦ absurd (ground arith)
          | inr (w, ok) ↦ absurd (ground arith)
        ]
        | inr (rest, fine) ↦ elim (Option-cases (default_and_enforce now item.last_event_at)) [
          | inl early ↦ absurd (ground arith)
          | inr (w, ok) ↦ (rest, w, fine, ok, ground arith)
        ]
      ]

  pub find-new_rows :
      (now id h : ℕ) (items : List SourceInput) (created : List Source)
      → new_rows hash_spec kind_of now account feed id items ≡ some created
      → view account feed created h ≡ map_option (fresh hash_spec now) (lookup hash_spec h items)
  unfolding view lookup find fresh entry new_row is_row scoped
  find-new_rows now id h [] created e = unfold new_rows in ground arith
  find-new_rows now id h (item ∷ items) created e =
      let (rest, w, fine, ok, whole) = new_rows-cons now id item items created e in
      let later = find-new_rows now (suc id) h items rest fine in
      let mark = default-fresh now w item.last_event_at ok in
      rw (whole, ==-refl account, ==-refl feed.id)
        (elim (Bool-cases (hash_spec item.spec == h)) [
          | inl hit ↦ rw (hit, mark) refl
          | inr miss ↦ rw miss later
        ])
