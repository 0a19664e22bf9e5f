-- ===== src/Watches/Runs/Sound/Batches.antt =====
-- The invariant of the run table under apps/core/watches/services/_run_batches.py.
use openmagpie.Prelude.{
  ℕ, ◌<◌, ◌≡◌, true, some, List, [], ◌∷◌, map, arith, if◌then◌else◌, update, All, batched,
}
use openmagpie.Watches.Enums.{RunState, Message, is_terminal}
use openmagpie.Watches.Model.{Settings, Run, Db}
use openmagpie.Watches.Runs.Enqueue.{row_for, advance_rows, enqueue_advance_batch}
use openmagpie.Watches.Runs.Complete.{
  finish, is_pending_in, complete_chunks, complete_batch, burn_attempt, exhaust, is_spent_in,
  fail_chunks, fail_batch,
}
use openmagpie.Watches.Runs.Sound.{
  IsConsistent, IsSound, update-IsKeyed, update-IsSound, bulk_create-IsSound,
  pending_run-IsConsistent,
}

module _ (settings : Settings) where
  terminal-IsConsistent :
      (account_id : ℕ) (chunk : List ℕ) (r : Run) (state : RunState) (result : ℕ) (error : Message)
      (delivery_id kind now : ℕ)
      → is_terminal state ≡ true
      → is_pending_in account_id chunk r ≡ true
      → IsConsistent settings r
      → IsConsistent settings (finish state result error delivery_id kind (some now) now r)
  terminal-IsConsistent account_id chunk r state result error delivery_id kind now t h i =
      ground arith

  complete_chunks-IsSound :
      (account_id : ℕ) (state : RunState) (result : ℕ) (error : Message) (delivery_id kind now : ℕ)
      → is_terminal state ≡ true
      → (chunks : List (List ℕ)) (written : ℕ) (db : Db) → IsSound settings db
      → IsSound settings
          (complete_chunks account_id
            (finish state result error delivery_id kind (some now) now)
            chunks
            written
            db).1
  unfolding complete_chunks
  complete_chunks-IsSound account_id state result error delivery_id kind now t [] written db s = s
  complete_chunks-IsSound account_id state result error delivery_id kind now t (chunk ∷ chunks)
        written db s =
      complete_chunks-IsSound account_id state result error delivery_id kind now t chunks _ _ (
        update-IsSound settings (is_pending_in account_id chunk)
          (finish state result error delivery_id kind (some now) now) (λ a b. ground arith)
          (λ r. terminal-IsConsistent account_id chunk r state result error delivery_id kind now t)
          db s)

  -- A batch completion with a terminal state keeps the invariant of the run table.
  pub complete_batch-IsSound :
      (account_id : ℕ) (run_ids : List ℕ) (state : RunState) (result : ℕ) (error : Message)
      (delivery_id kind now : ℕ) (db : Db)
      → is_terminal state ≡ true
      → IsSound settings db
      → IsSound settings
          (complete_batch account_id run_ids state result error delivery_id kind now db).1
  unfolding complete_batch
  complete_batch-IsSound account_id run_ids state result error delivery_id kind now db t s =
      complete_chunks-IsSound account_id state result error delivery_id kind now t _ 0 db s

  -- Both updates of `fail_batch` on one row: between them a run may be PENDING with no attempts left.
  abbrev fail_row : (account_id now : ℕ) → List ℕ → Run → Run
  fail_row account_id now chunk r =
      let burned = if is_pending_in account_id chunk r then burn_attempt now r else r in
      if is_spent_in settings account_id chunk burned then exhaust now burned else burned

  fail_row-IsConsistent :
      (account_id now : ℕ) (chunk : List ℕ) (r : Run)
      → IsConsistent settings r
      → IsConsistent settings (fail_row account_id now chunk r)
  fail_row-IsConsistent account_id now chunk r i = ground arith

  fail_rows-IsConsistent :
      (account_id now : ℕ) (chunk : List ℕ) (rs : List Run)
      → All (IsConsistent settings) rs
      → All (IsConsistent settings) (
          update
            (is_spent_in settings account_id chunk)
            (exhaust now)
            (update (is_pending_in account_id chunk) (burn_attempt now) rs))
  unfolding update
  fail_rows-IsConsistent account_id now chunk [] i = tt
  fail_rows-IsConsistent account_id now chunk (r ∷ rs) i = (
    fail_row-IsConsistent account_id now chunk r i.0,
    fail_rows-IsConsistent account_id now chunk rs i.1,
  )

  fail_chunks-IsSound :
      (account_id now : ℕ) (chunks : List (List ℕ)) (exhausted : ℕ) (db : Db)
      → IsSound settings db
      → IsSound settings (fail_chunks settings account_id now chunks exhausted db).1
  unfolding fail_chunks
  fail_chunks-IsSound account_id now [] exhausted db s = s
  fail_chunks-IsSound account_id now (chunk ∷ chunks) exhausted db s =
      fail_chunks-IsSound account_id now chunks _ _ (record {
        consistent = fail_rows-IsConsistent account_id now chunk db.runs s.consistent;
        keyed =
            update-IsKeyed (is_spent_in settings account_id chunk) (exhaust now)
              (λ a b. ground arith) _
              (update-IsKeyed (is_pending_in account_id chunk) (burn_attempt now)
                (λ a b. ground arith) db s.keyed);
      })

  -- A failed batch keeps the invariant of the run table: the attempts stay within the cap, and a
  -- run that reaches it is FAILED with a completion time.
  pub fail_batch-IsSound :
      (account_id : ℕ) (run_ids : List ℕ) (now : ℕ) (db : Db)
      → IsSound settings db
      → IsSound settings (fail_batch settings account_id run_ids now db).1
  unfolding fail_batch
  fail_batch-IsSound account_id run_ids now db s =
      fail_chunks-IsSound account_id now (batched run_ids 500) 0 db s

  rows-IsConsistent :
      (account_id watch_id action_id kind scheduled_at : ℕ)
      → 0 < settings.run_max_attempts
      → (ids : List ℕ)
      → All
          (IsConsistent settings)
          (map (row_for account_id watch_id action_id kind scheduled_at) ids)
  rows-IsConsistent a w c k t h [] = tt
  rows-IsConsistent a w c k t h (fid ∷ ids) =
      (pending_run-IsConsistent settings a w c k fid t 0 h, rows-IsConsistent a w c k t h ids)

  advance_rows-IsConsistent :
      (account_id action_id kind scheduled_at : ℕ)
      → 0 < settings.run_max_attempts
      → (rows : List (ℕ × ℕ × ℕ))
      → All (IsConsistent settings) (advance_rows account_id action_id kind scheduled_at rows)
  unfolding advance_rows
  advance_rows-IsConsistent a c k t h [] = tt
  advance_rows-IsConsistent a c k t h ((w, fid, p) ∷ rows) = (
    pending_run-IsConsistent settings a w c k fid t p h,
    advance_rows-IsConsistent a c k t h rows,
  )

  pub enqueue_advance_batch-IsSound :
      (account_id action_id kind scheduled_at : ℕ) (rows : List (ℕ × ℕ × ℕ)) (db : Db)
      → 0 < settings.run_max_attempts
      → IsSound settings db
      → IsSound settings (enqueue_advance_batch account_id action_id kind scheduled_at rows db)
  unfolding enqueue_advance_batch
  enqueue_advance_batch-IsSound a c k t rows db h s =
      bulk_create-IsSound settings _ db (advance_rows-IsConsistent a c k t h rows) s
