-- ===== src/Feeds/Sources/Replace.antt =====
-- `SourceService.set_sources` of apps/core/feeds/services/sources.py, from its input to its rows.
use Prim.Native.String.{String}
use openmagpie.Prelude.{
  ℕ, ◌≡◌, refl, sym, ◌∙◌, ap, subst, Bool, true, false, not, Option, none, some, List, [], ◌∷◌,
  ◌++◌, ◌==◌, if◌then◌else◌, arith, Bool-cases, inl, inr, ◌⊎◌, select, find, exists, length, Unique,
  is_some, or_else, find-append, exists-find, find-select, exists_ext, ==_iff, ==-refl,
  Unique-append_one, All, All-imp, All-exists, count-All,
}
use mathlib.Core.Option.{map as map_option}
use openmagpie.Common.Cache.{Cache}
use openmagpie.Common.Locks.{LockSettings, feed_set_lock, lock_name, acquire}
use openmagpie.Feeds.Model.{Feed, Source, SourceInput, SourceSetResult}
use openmagpie.Feeds.Sources.{
  SetError, scoped, has_hash, new_by_hash, row_exists, new_rows, tally, reconcile, set_locked,
  set_sources,
}
use openmagpie.Feeds.Sources.View.{Entry, fresh, entry, view, lookup, is_row}
use openmagpie.Feeds.Sources.Retag.{same_input, merge, retag}
use openmagpie.Feeds.Sources.Refines.{reconcile-view}

is_some-map : {A B : Type 0} (f : A → B) (o : Option A) → is_some (map_option f o) ≡ is_some o
is_some-map f none = refl
is_some-map f (some x) = refl

is_some-merge :
    (hash_spec : ℕ → ℕ) (now : ℕ) (wanted : Option SourceInput) (old : Option Entry)
    → is_some (merge hash_spec now wanted old) ≡ is_some wanted
unfolding merge
is_some-merge hash_spec now none old = refl
is_some-merge hash_spec now (some item) none = refl
is_some-merge hash_spec now (some item) (some old) = refl

-- What was merged once is as it would be merged again.
merge-merge :
    (hash_spec : ℕ → ℕ) (now later : ℕ) (wanted : Option SourceInput) (old : Option Entry)
    → merge hash_spec later wanted (merge hash_spec now wanted old) ≡ merge hash_spec now wanted old
unfolding merge fresh retag
merge-merge hash_spec now later none old = refl
merge-merge hash_spec now later (some item) none = refl
merge-merge hash_spec now later (some item) (some old) = refl

select-none :
    {A : Type 0} (p : A → Bool) (xs : List A) → All (λ x. p x ≡ false) xs → select p xs ≡ []
unfolding select
select-none p [] h = refl
select-none p (x ∷ xs) h = rw h.0 (select-none p xs h.1)

module _ (hash_spec : ℕ → ℕ) where
  -- The first input of a hash is kept.
  lookup-new_by_hash :
      (h : ℕ) (seen items : List SourceInput)
      → lookup hash_spec h (new_by_hash hash_spec seen items)
        ≡ or_else (lookup hash_spec h seen) (lookup hash_spec h items)
  unfolding new_by_hash lookup or_else find has_hash
  lookup-new_by_hash h seen [] = ground arith
  lookup-new_by_hash h seen (item ∷ items) =
      elim (Bool-cases (has_hash hash_spec (hash_spec item.spec) seen)) [
        | inl known ↦ rw known (
            lookup-new_by_hash h seen items ∙ elim (Bool-cases (hash_spec item.spec == h)) [
              | inl hit ↦
                  let found : is_some (lookup hash_spec h seen) ≡ true =
                    sym (exists-find (λ x. hash_spec x.spec == h) seen)
                    ∙ subst (λ n. has_hash hash_spec n seen ≡ true)
                        ((==_iff (hash_spec item.spec) h).0 hit) known in
                  rw hit (ground arith)
              | inr miss ↦ rw miss refl
            ])
        | inr new ↦ rw new (
            lookup-new_by_hash h (seen ++ item ∷ []) items
            ∙ rw (find-append (λ x. hash_spec x.spec == h) seen (item ∷ [])) (ground arith))
      ]

  new_by_hash-Unique :
      (seen items : List SourceInput)
      → Unique (same_input hash_spec) seen
      → Unique (same_input hash_spec) (new_by_hash hash_spec seen items)
  unfolding new_by_hash same_input has_hash
  new_by_hash-Unique seen [] u = u
  new_by_hash-Unique seen (item ∷ items) u =
      elim (Bool-cases (has_hash hash_spec (hash_spec item.spec) seen)) [
        | inl known ↦ rw known (new_by_hash-Unique seen items u)
        | inr new ↦ rw new (
            new_by_hash-Unique (seen ++ item ∷ []) items (
              Unique-append_one (same_input hash_spec) (λ x y. ground arith) seen item u
                (exists_ext (same_input hash_spec item)
                    (λ x. hash_spec x.spec == hash_spec item.spec) (λ x. ground arith) seen
                  ∙ new)))
      ]

module _ (hash_spec kind_of : ℕ → ℕ) (registered safe : ℕ → Bool) {C : Type 0}
    (cache : Cache String ℕ C) (locks : LockSettings) (sha256 : String → String)
    (show_id : ℕ → String) where
  module _ (now ended token account : ℕ) (feed : Feed) (id : ℕ) (items : List SourceInput)
      (rows : List Source) (c : C) where
    abbrev wanted : List SourceInput
    wanted = new_by_hash hash_spec [] items

    abbrev outcome : Bool → (SetError ⊎ SourceSetResult) × List Source × C
    outcome dry_run =
        set_sources hash_spec kind_of registered safe cache locks sha256 show_id now ended token
          account feed id dry_run items rows c

    -- The guards passed, a result is one of the transaction or of the dry run.
    passed :
        (dry_run : Bool) (result : SourceSetResult) (written : List Source) (d : C)
        → outcome dry_run ≡ (inr result, written, d)
        → (result ≡ tally hash_spec wanted (select (scoped account feed) rows))
          × (if dry_run
              then written ≡ rows
              else reconcile hash_spec kind_of now account feed id wanted rows ≡ some written)
    unfolding set_sources set_locked
    passed dry_run result written d e = ground arith

    merged :
        (result : SourceSetResult) (written : List Source) (d : C) (h : ℕ)
        → outcome false ≡ (inr result, written, d)
        → view account feed written h
          ≡ merge hash_spec now (lookup hash_spec h wanted) (view account feed rows h)
    merged result written d h e =
        reconcile-view hash_spec account feed wanted rows h kind_of now id written
          (new_by_hash-Unique hash_spec [] items tt) (passed false result written d e).1

    -- When a `set_sources` that is not a dry run succeeds, the source under each hash is what
    -- `merge` makes of the first input with the hash and of the source that was there: without an
    -- input there is none, a source that was there keeps its watermark and takes the input's tags
    -- and hints, and a new one has the input's watermark, or the time of the set.
    pub set_sources-merge :
        (result : SourceSetResult) (written : List Source) (d : C) (h : ℕ)
        → outcome false ≡ (inr result, written, d)
        → view account feed written h
          ≡ merge hash_spec now (lookup hash_spec h items) (view account feed rows h)
    unfolding lookup or_else find
    set_sources-merge result written d h e =
        merged result written d h e
        ∙ ap (λ o. merge hash_spec now o (view account feed rows h))
            (lookup-new_by_hash hash_spec h [] items)

    -- A set that fails, or a dry run, leaves every row.
    set_sources_kept :
        (dry_run : Bool) (error : SetError) (written : List Source) (d : C)
        → outcome dry_run ≡ (inl error, written, d)
        → written ≡ rows
    unfolding set_sources set_locked
    set_sources_kept dry_run error written d e = ground arith

    -- A dry run reports what the set then does, and writes nothing.
    set_sources-dry_run :
        (result : SourceSetResult) (written : List Source) (d : C)
        → outcome false ≡ (inr result, written, d)
        → outcome true ≡ (inr result, rows, c)
    unfolding set_sources set_locked
    set_sources-dry_run result written d e = ground arith

    -- The rows that a set wrote have the hashes of its inputs, and no other.
    wanted-row :
        (result : SourceSetResult) (written : List Source) (d : C)
        → outcome false ≡ (inr result, written, d)
        → (h : ℕ)
        → exists (λ row. row.spec_hash == h) (select (scoped account feed) written)
          ≡ has_hash hash_spec h wanted
    unfolding has_hash view lookup
    wanted-row result written d e h =
        exists-find (λ row. row.spec_hash == h) (select (scoped account feed) written)
        ∙ ap is_some (find-select (λ row. row.spec_hash == h) (scoped account feed) written)
        ∙ sym (is_some-map entry (find (is_row account feed h) written))
        ∙ ap is_some (merged result written d h e)
        ∙ is_some-merge hash_spec now (lookup hash_spec h wanted) (view account feed rows h)
        ∙ sym (exists-find (λ item. hash_spec item.spec == h) wanted)

    abbrev unchanged : SourceSetResult
    unchanged = record {
      added = 0;
      removed = 0;
      persisted = length wanted;
      source_count = length wanted;
    }

    -- The rows that a set wrote have all of its inputs, and nothing else.
    tally-unchanged :
        (result : SourceSetResult) (written : List Source) (d : C)
        → outcome false ≡ (inr result, written, d)
        → (tally hash_spec wanted (select (scoped account feed) written) ≡ unchanged)
          × All
              (λ item.
                not (row_exists hash_spec (select (scoped account feed) written) item) ≡ false)
              wanted
    unfolding tally row_exists has_hash
    tally-unchanged result written d e = (
      rw
          (
            count-All (row_exists hash_spec rest) true wanted present,
            count-All _ false wanted none_new,
            count-All _ false rest none_gone,
          )
          refl,
      none_new,
    )
      where
        rest : List Source
        rest = select (scoped account feed) written

        present : All (λ item. row_exists hash_spec rest item ≡ true) wanted
        present =
            All-imp _ _ (λ item own. wanted-row result written d e (hash_spec item.spec) ∙ own)
              wanted
              (All-exists (λ x y. hash_spec y.spec == hash_spec x.spec)
                (λ x. ==-refl (hash_spec x.spec)) wanted)

        none_new : All (λ item. not (row_exists hash_spec rest item) ≡ false) wanted
        none_new = All-imp _ _ (λ item own. ap not own) wanted present

        none_gone : All (λ row. not (has_hash hash_spec row.spec_hash wanted) ≡ false) rest
        none_gone =
            All-imp _ _
              (λ row own. ap not (sym (wanted-row result written d e row.spec_hash) ∙ own)) rest
              (All-exists (λ x y. y.spec_hash == x.spec_hash) (λ x. ==-refl x.spec_hash) rest)

    module _ (result : SourceSetResult) (written : List Source) (d : C)
        (done : outcome false ≡ (inr result, written, d)) (later ended' token' id' : ℕ)
        (c' : C) where
      abbrev again : Bool → (SetError ⊎ SourceSetResult) × List Source × C
      again dry_run =
          set_sources hash_spec kind_of registered safe cache locks sha256 show_id later ended'
            token' account feed id' dry_run items written c'

      -- The guards pass again.
      again-dry_run :
          again true
          ≡ (inr (tally hash_spec wanted (select (scoped account feed) written)), written, c')
      unfolding set_sources set_locked
      again-dry_run = ground (arith, done)

      again_locked :
          again false
          ≡ set_locked hash_spec kind_of registered safe cache locks sha256 show_id later ended'
              token' account feed id' wanted written c'
      unfolding set_sources
      again_locked = ground (arith, done)

      -- Nothing is new, so no watermark can be wrong.
      again-reconcile :
          (written' : List Source) × (reconcile hash_spec kind_of later account feed id' wanted
              written
            ≡ some written')
      unfolding reconcile new_rows
      again-reconcile =
          rw (select-none _ wanted (tally-unchanged result written d done).1) (_, refl)

      abbrev feed_set_key : String
      feed_set_key = lock_name sha256 (feed_set_lock (show_id feed.id))

      -- After a `set_sources` that succeeds, the same input is set again, at any time, while the
      -- feed's lock is free. A dry run reports that nothing would be added or removed and writes
      -- nothing. The set succeeds, reports that nothing was added or removed and that all the
      -- distinct inputs persisted, and leaves under each hash the source that was there.
      pub set_sources-set_sources :
          (h : ℕ)
          → cache.get later (lock_name sha256 (feed_set_lock (show_id feed.id))) c' ≡ none
          → (again true ≡ (inr unchanged, written, c'))
            × ((again false).0 ≡ inr unchanged)
            × (view account feed (again false).1 h ≡ view account feed written h)
      unfolding set_locked acquire
      set_sources-set_sources h free =
          let same = (tally-unchanged result written d done).0 in
          let (written', eq) = again-reconcile in
          (
            again-dry_run ∙ ap (λ r. (inr r, written, c')) same,
            rw
                (
                  again_locked,
                  cache.add_absent later locks.feed_set_lock_timeout_seconds feed_set_key token' c'
                      free,
                  eq,
                  same,
                )
                refl,
            rw
                (
                  again_locked,
                  cache.add_absent later locks.feed_set_lock_timeout_seconds feed_set_key token' c'
                      free,
                  eq,
                )
                (reconcile-view hash_spec account feed wanted written h kind_of later id' written'
                    (new_by_hash-Unique hash_spec [] items tt) eq
                  ∙ ap (merge hash_spec later (lookup hash_spec h wanted))
                      (merged result written d h done)
                  ∙ merge-merge hash_spec now later (lookup hash_spec h wanted)
                      (view account feed rows h)
                  ∙ sym (merged result written d h done)),
          )
