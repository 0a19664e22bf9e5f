-- ===== src/Watches/Runs/Enqueue.antt =====
-- `enqueue`, `enqueue_many` and `_enqueue_chunk` of apps/core/watches/services/runs/_service.py and
-- `enqueue_advance_batch` of apps/core/watches/services/_run_batches.py.
pub mod Unique
pub mod Batches
use openmagpie.Prelude.{
  ℕ, suc, ◌+◌, ◌≡◌, Bool, true, false, not, ◌&&◌, Option, none, some, List, [], ◌∷◌, ◌++◌, map,
  arith, ltb, ◌==◌, if◌then◌else◌, length, exists, select, batched,
}
use openmagpie.Watches.Model.{Run, Db, same_key, pending_run}

-- `_ENQUEUE_CHUNK` of apps/core/watches/services/runs/_common.py.
abbrev pub enqueue_chunk_size : ℕ
enqueue_chunk_size = 500

-- INSERT ... ON CONFLICT DO NOTHING: the unique constraint drops a row whose key is there.
unfoldable pub insert_run : Run → Db → Db
insert_run r db =
    if exists (same_key r) runs
    then db
    else record db { runs = runs ++ record r { id = next_id } ∷ []; next_id = suc next_id }
  where
    open db use {runs, next_id}

-- `bulk_create(rows, ignore_conflicts=True)`.
unfoldable pub bulk_create : List Run → Db → Db
bulk_create [] db = db
bulk_create (r ∷ rs) db = bulk_create rs (insert_run r db)

-- `get_or_create` on the unique key; the row is returned only if it was created.
unfoldable pub enqueue :
    (account_id watch_id action_id kind feed_item_id scheduled_at prior_run_id : ℕ)
    → Db
    → Option Run × Db
unfolding insert_run
enqueue account_id watch_id action_id kind feed_item_id scheduled_at prior_run_id db =
    let r = pending_run account_id watch_id action_id kind feed_item_id scheduled_at prior_run_id in
    if exists (same_key r) db.runs
    then (none, db)
    else (some (record r { id = db.next_id }), insert_run r db)

module _ (account_id watch_id action_id kind scheduled_at : ℕ) where
  -- The row that the chunk builds for a feed item.
  abbrev pub row_for : ℕ → Run
  row_for fid = pending_run account_id watch_id action_id kind fid scheduled_at 0

  -- `fid in have`: the feed item has a run of this action.
  abbrev pub have : Db → ℕ → Bool
  have db fid = exists (same_key (row_for fid)) db.runs

  -- One chunk; `none` is the `ValueError` of a chunk that is too long.
  unfoldable pub enqueue_chunk : List ℕ → Db → Option (ℕ × Db)
  enqueue_chunk feed_item_ids db =
      if ltb enqueue_chunk_size (length feed_item_ids)
      then none
      else let new = select (λ fid. not (have db fid)) feed_item_ids in
        some (length new, bulk_create (map row_for new) db)

  unfoldable pub enqueue_chunks : List (List ℕ) → ℕ → Db → Option (ℕ × Db)
  enqueue_chunks [] created db = some (created, db)
  enqueue_chunks (chunk ∷ chunks) created db = elim (enqueue_chunk chunk db) [
    | none ↦ none
    | some (n, db') ↦ enqueue_chunks chunks (created + n) db'
  ]

  unfoldable pub enqueue_many : List ℕ → Db → Option (ℕ × Db)
  enqueue_many feed_item_ids db = enqueue_chunks (batched feed_item_ids enqueue_chunk_size) 0 db

-- One successor run for each `(watch_id, feed_item_id, prior_run_id)`.
unfoldable pub advance_rows :
    (account_id action_id kind scheduled_at : ℕ) → List (ℕ × ℕ × ℕ) → List Run
advance_rows account_id action_id kind scheduled_at [] = []
advance_rows account_id action_id kind scheduled_at
      ((watch_id, feed_item_id, prior_run_id) ∷ rows) =
    pending_run account_id watch_id action_id kind feed_item_id scheduled_at prior_run_id
    ∷ advance_rows account_id action_id kind scheduled_at rows

unfoldable pub enqueue_advance_batch :
    (account_id action_id kind scheduled_at : ℕ) → List (ℕ × ℕ × ℕ) → Db → Db
unfolding advance_rows
enqueue_advance_batch account_id action_id kind scheduled_at rows db =
    bulk_create (advance_rows account_id action_id kind scheduled_at rows) db
