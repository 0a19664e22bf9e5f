-- ===== src/Watches/Runs/Enqueue/Batches.antt =====
-- The batched enqueue of apps/core/watches/services/runs/_service.py against `enqueue` for one feed item
-- after another.
use native.Mathlib.Nat.{add-zero}
use openmagpie.Prelude.{
  append-All, append-Unique, Unique-select, ℕ, ◌+◌, ◌≡◌, refl, true, not, List, [], ◌∷◌, ◌++◌,
  arith, ◌==◌, Option, length, exists, select, All, Unique, none, some, batched, concat,
  concat-batched, Within, batched-Within,
}
use openmagpie.Watches.Model.{Db, same_key, pending_run}
use openmagpie.Watches.Runs.Enqueue.{
  enqueue, have, enqueue_chunk_size, enqueue_chunk, enqueue_chunks, enqueue_many,
}
use openmagpie.Watches.Runs.Enqueue.Unique.{
  enqueue_each, bulk_create-select, AllNew-select, length-bulk_create, AllOld, AllOld-enqueue_each,
  exists-insert_run, insert_run-eq-enqueue,
}

enqueue_old :
    (account_id watch_id action_id kind feed_item_id scheduled_at prior_run_id : ℕ) (db : Db)
    → exists
        (same_key
          (pending_run account_id watch_id action_id kind feed_item_id scheduled_at prior_run_id))
        db.runs
      ≡ true
    → enqueue account_id watch_id action_id kind feed_item_id scheduled_at prior_run_id db
      ≡ (none, db)
unfolding enqueue
enqueue_old a w c k fid t p db h = rw h

-- A second `enqueue` of the same triple, with any kind, schedule and prior run, creates nothing
-- and changes nothing.
enqueue_twice :
    (account_id watch_id action_id kind feed_item_id scheduled_at prior_run_id : ℕ)
    (kind' scheduled_at' prior_run_id' : ℕ) (db : Db)
    → let db' =
        (enqueue account_id watch_id action_id kind feed_item_id scheduled_at prior_run_id db).1 in
      enqueue account_id watch_id action_id kind' feed_item_id scheduled_at' prior_run_id' db'
      ≡ (none, db')
enqueue_twice a w c k fid t p k' t' p' db =
    enqueue_old a w c k' fid t' p' _ (rw (insert_run-eq-enqueue, exists-insert_run) (ground arith))

module _ (account_id watch_id action_id kind scheduled_at : ℕ) where
  abbrev chunk_of : List ℕ → Db → Option (ℕ × Db)
  chunk_of = enqueue_chunk account_id watch_id action_id kind scheduled_at

  abbrev each : List ℕ → Db → Db
  each = enqueue_each account_id watch_id action_id kind scheduled_at

  abbrev new_of : Db → List ℕ → List ℕ
  new_of db = select (λ fid. not (have account_id watch_id action_id kind scheduled_at db fid))

  chunk_lem :
      (chunk : List ℕ) (db : Db)
      → Within enqueue_chunk_size chunk
      → chunk_of chunk db ≡ some (length (new_of db chunk), each chunk db)
  unfolding enqueue_chunk
  chunk_lem chunk db w =
      rw (bulk_create-select account_id watch_id action_id kind scheduled_at chunk db db (λ x h. h))
        (ground arith)

  enqueue_each-append : (xs ys : List ℕ) (db : Db) → each (xs ++ ys) db ≡ each ys (each xs db)
  unfolding enqueue_each
  enqueue_each-append [] ys db = refl
  enqueue_each-append (x ∷ xs) ys db = enqueue_each-append xs ys _

  chunks_lem :
      (chunks : List (List ℕ)) (created : ℕ) (db : Db)
      → All (Within enqueue_chunk_size) chunks
      → (n : ℕ) × (enqueue_chunks account_id watch_id action_id kind scheduled_at chunks created db
          ≡ some (n, each (concat chunks) db))
  unfolding enqueue_chunks concat enqueue_each
  chunks_lem [] created db w = (created, refl)
  chunks_lem (chunk ∷ chunks) created db w =
      let (n, e) = chunks_lem chunks (created + length (new_of db chunk)) (each chunk db) w.1 in
      (
        n,
        rw (chunk_lem chunk db w.0, enqueue_chunks, enqueue_each-append chunk (concat chunks) db) e,
      )

  -- The batched enqueue of any feed items never raises, and leaves the tables as `enqueue` for one
  -- feed item after another would.
  pub enqueue_many-eq-enqueue_each :
      (ids : List ℕ) (db : Db)
      → (n : ℕ) × (enqueue_many account_id watch_id action_id kind scheduled_at ids db
          ≡ some (n, enqueue_each account_id watch_id action_id kind scheduled_at ids db))
  unfolding enqueue_many
  enqueue_many-eq-enqueue_each ids db =
      let (n, e) = chunks_lem (batched ids enqueue_chunk_size) 0 db (batched-Within ids 499) in
      (n, rw (concat-batched ids enqueue_chunk_size) at e)

  each_count :
      (chunk : List ℕ) (db : Db)
      → Unique ◌==◌ chunk
      → length (each chunk db).runs ≡ length db.runs + length (new_of db chunk)
  each_count chunk db u =
      rw
        (← bulk_create-select account_id watch_id action_id kind scheduled_at chunk db db
          (λ x h. h))
        (length-bulk_create account_id watch_id action_id kind scheduled_at (new_of db chunk) db
          (Unique-select ◌==◌ _ chunk u)
          (AllNew-select account_id watch_id action_id kind scheduled_at chunk db))

  chunks_count :
      (chunks : List (List ℕ)) (created : ℕ) (db : Db) {n : ℕ} {db' : Db}
      → Unique ◌==◌ (concat chunks)
      → All (Within enqueue_chunk_size) chunks
      → enqueue_chunks account_id watch_id action_id kind scheduled_at chunks created db
        ≡ some (n, db')
      → length db'.runs + created ≡ length db.runs + n
  unfolding enqueue_chunks concat
  chunks_count [] created db u w e = ground arith
  chunks_count (chunk ∷ chunks) created db u w e =
      let (now, later) = append-Unique ◌==◌ chunk (concat chunks) u in
      omega (
        arith,
        each_count chunk db now,
        chunks_count chunks _ (each chunk db) later w.1
            (rw (chunk_lem chunk db w.0, enqueue_chunks) at e),
      )

  -- On distinct feed items the count that the batched enqueue returns is the number of rows that
  -- it added.
  enqueue_many-count :
      (ids : List ℕ) (db : Db) {n : ℕ} {db' : Db}
      → Unique ◌==◌ ids
      → enqueue_many account_id watch_id action_id kind scheduled_at ids db ≡ some (n, db')
      → length db'.runs ≡ length db.runs + n
  unfolding enqueue_many
  enqueue_many-count ids db u e = omega (
    arith,
    chunks_count (batched ids enqueue_chunk_size) 0 db
        (rw (concat-batched ids enqueue_chunk_size) u) (batched-Within ids 499) e,
  )

  new_of_old :
      (ids : List ℕ) (db : Db)
      → AllOld account_id watch_id action_id kind scheduled_at db ids
      → (new_of db ids ≡ []) × (each ids db ≡ db)
  unfolding select enqueue_each
  new_of_old [] db h = (refl, refl)
  new_of_old (x ∷ ids) db h =
      let (a, b) = new_of_old ids db h.1 in
      (rw h.0 a, rw (enqueue_old account_id watch_id action_id kind x scheduled_at 0 db h.0) b)

  chunks_old :
      (chunks : List (List ℕ)) (created : ℕ) (db : Db)
      → AllOld account_id watch_id action_id kind scheduled_at db (concat chunks)
      → All (Within enqueue_chunk_size) chunks
      → enqueue_chunks account_id watch_id action_id kind scheduled_at chunks created db
        ≡ some (created, db)
  unfolding enqueue_chunks concat
  chunks_old [] created db h w = refl
  chunks_old (chunk ∷ chunks) created db h w =
      let (now, later) = append-All _ chunk (concat chunks) h in
      let (new, kept) = new_of_old chunk db now in
      rw (chunk_lem chunk db w.0, new, kept, enqueue_chunks)
        (rw (add-zero created) (chunks_old chunks created db later w.1))

  -- A batched enqueue right after one of the same feed items reports 0 and changes nothing.
  enqueue_many_twice :
      (ids : List ℕ) (db : Db) {n : ℕ} {db' : Db}
      → enqueue_many account_id watch_id action_id kind scheduled_at ids db ≡ some (n, db')
      → enqueue_many account_id watch_id action_id kind scheduled_at ids db' ≡ some (0, db')
  enqueue_many_twice ids db {n} {db'} e =
      let (m, e') = enqueue_many-eq-enqueue_each ids db in
      let same : each ids db ≡ db' = cc in
      unfold enqueue_many in
      chunks_old (batched ids enqueue_chunk_size) 0 db'
        (rw (concat-batched ids enqueue_chunk_size) (
          rw (← same) (AllOld-enqueue_each account_id watch_id action_id kind scheduled_at ids db)))
        (batched-Within ids 499)
