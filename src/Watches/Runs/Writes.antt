-- ===== src/Watches/Runs/Writes.antt =====
-- The operations of apps/core/watches/services/runs as sequences of writes of four kinds, and the
-- attempts of a run under them.
use openmagpie.Prelude.{
  ℕ, ◌≤◌, ◌<◌, ◌≡◌, subst, Bool, some, List, [], ◌∷◌, arith, exists, update, remove, All,
  All-append, All-update, All-remove, Bool-cases, inl, inr, Unique-remove,
}
use openmagpie.Watches.Enums.{RunState, Message}
use openmagpie.Watches.Model.{Settings, Run, Db, same_key, same_id}
use openmagpie.Watches.Runs.Enqueue.{
  insert_run, bulk_create, enqueue, enqueue_many, enqueue_advance_batch,
}
use openmagpie.Watches.Runs.Enqueue.Unique.{insert_run-eq-enqueue, enqueue_each}
use openmagpie.Watches.Runs.Enqueue.Batches.{enqueue_many-eq-enqueue_each}
use openmagpie.Watches.Runs.Sound.{IsKeyed, Keyed, update-IsKeyed, insert_run-IsKeyed}
use openmagpie.Watches.Runs.Drain.{
  is_exhausted_stale, is_retryable_stale, time_out_exhausted, time_out, reap_stale, is_claim_of,
  start, claim_one,
}
use openmagpie.Watches.Runs.Complete.{
  complete, finish, holds_claim, is_pending_in, complete_chunks, complete_batch, burn_attempt,
  exhaust, is_spent_in, fail_chunks, fail_batch, completion_ts,
}

-- What a column update leaves: the id and the unique key, and the attempts at least.
abbrev pub Keeps : (Run → Run) → Type 0
Keeps f =
    (r : Run)
    → ((f r).id ≡ r.id)
      × (r.attempts ≤ (f r).attempts)
      × ((f r).account_id ≡ r.account_id)
      × ((f r).watch_id ≡ r.watch_id)
      × ((f r).action_id ≡ r.action_id)
      × ((f r).feed_item_id ≡ r.feed_item_id)

pub data Write : Db → Db → Type 0 where
  updates :
      (p : Run → Bool) (f : Run → Run)
      → Keeps f
      → (db : Db) → Write db (record db { runs = update p f db.runs })
  inserts : (r : Run) (db : Db) → Write db (insert_run r db)
  removes : (p : Run → Bool) (db : Db) → Write db (record db { runs = remove p db.runs })
  -- A write to another table.
  elsewhere : (db db' : Db) → db.next_id ≤ db'.next_id → db'.runs ≡ db.runs → Write db db'

pub data Writes (db : Db) : Db → Type 0 where
  here : Writes db db
  next : {a b : Db} → Writes db a → Write a b → Writes db b

Writes-trans : {a b c : Db} → Writes a b → Writes b c → Writes a c
Writes-trans w here = w
Writes-trans w (next v s) = next (Writes-trans w v) s

pub one : {a b : Db} → Write a b → Writes a b
one w = next here w

bulk_create-Writes : (rs : List Run) (db : Db) → Writes db (bulk_create rs db)
unfolding bulk_create
bulk_create-Writes [] db = here
bulk_create-Writes (r ∷ rs) db = Writes-trans (one (inserts r db)) (bulk_create-Writes rs _)

enqueue_advance_batch-Writes :
    (account_id action_id kind scheduled_at : ℕ) (rows : List (ℕ × ℕ × ℕ)) (db : Db)
    → Writes db (enqueue_advance_batch account_id action_id kind scheduled_at rows db)
unfolding enqueue_advance_batch
enqueue_advance_batch-Writes a c k t rows db = bulk_create-Writes _ db

enqueue-Writes :
    (account_id watch_id action_id kind feed_item_id scheduled_at prior_run_id : ℕ) (db : Db)
    → Writes db
        (enqueue account_id watch_id action_id kind feed_item_id scheduled_at prior_run_id db).1
enqueue-Writes a w c k fid t p db = rw insert_run-eq-enqueue (one (inserts _ db))

enqueue_each-Writes :
    (account_id watch_id action_id kind scheduled_at : ℕ) (ids : List ℕ) (db : Db)
    → Writes db (enqueue_each account_id watch_id action_id kind scheduled_at ids db)
unfolding enqueue_each
enqueue_each-Writes a w c k t [] db = here
enqueue_each-Writes a w c k t (fid ∷ ids) db =
    Writes-trans (enqueue-Writes a w c k fid t 0 db) (enqueue_each-Writes a w c k t ids _)

enqueue_many-Writes :
    (account_id watch_id action_id kind scheduled_at : ℕ) (ids : List ℕ) (db : Db) {n : ℕ}
    {db' : Db}
    → enqueue_many account_id watch_id action_id kind scheduled_at ids db ≡ some (n, db')
    → Writes db db'
enqueue_many-Writes a w c k t ids db {n} {db'} e =
    let (m, e') = enqueue_many-eq-enqueue_each a w c k t ids db in
    let same : enqueue_each a w c k t ids db ≡ db' = cc in
    subst (Writes db) same (enqueue_each-Writes a w c k t ids db)

module _ (settings : Settings) where
  claim_one-Writes :
      (ts : ℕ) (snapshot : Run) (db : Db) → Writes db (claim_one settings ts snapshot db).1
  unfolding claim_one
  claim_one-Writes ts snapshot db =
      elim (Bool-cases (exists (is_claim_of settings snapshot) db.runs)) [
        | inl hit ↦ rw hit (one (updates _ (start settings ts) (λ r. omega arith) db))
        | inr miss ↦ rw miss here
      ]

  pub reap_stale-Writes : (ts : ℕ) (db : Db) → Writes db (reap_stale settings ts db).1
  unfolding reap_stale
  reap_stale-Writes ts db =
      next
        (one (
          updates (is_exhausted_stale settings ts) (time_out_exhausted settings ts)
            (λ r. omega arith) db))
        (updates (is_retryable_stale settings ts) (time_out settings) (λ r. omega arith) _)

  complete-Writes :
      (account_id : ℕ) (run : Run) (state : RunState) (result : ℕ) (error : Message)
      (delivery_id kind now : ℕ) (db : Db)
      → Writes db (complete settings account_id run state result error delivery_id kind now db).1
  unfolding complete
  complete-Writes account_id run state result error delivery_id kind now db =
      let stay : Writes db db = here in
      ground (
        arith,
        one (
            updates (holds_claim run)
              (finish state result error delivery_id kind
                (completion_ts settings state run.attempts now) now)
              (λ r. omega arith) db),
        stay,
      )

  complete_chunks-Writes :
      (account_id : ℕ) (state : RunState) (result : ℕ) (error : Message) (delivery_id kind now : ℕ)
      (chunks : List (List ℕ)) (written : ℕ) (db : Db)
      → Writes db
          (complete_chunks account_id
            (finish state result error delivery_id kind (some now) now)
            chunks
            written
            db).1
  unfolding complete_chunks
  complete_chunks-Writes a state result error d k now [] written db = here
  complete_chunks-Writes a state result error d k now (chunk ∷ chunks) written db =
      Writes-trans (one (updates (is_pending_in a chunk) _ (λ r. omega arith) db))
        (complete_chunks-Writes a state result error d k now chunks _ _)

  complete_batch-Writes :
      (account_id : ℕ) (run_ids : List ℕ) (state : RunState) (result : ℕ) (error : Message)
      (delivery_id kind now : ℕ) (db : Db)
      → Writes db (complete_batch account_id run_ids state result error delivery_id kind now db).1
  unfolding complete_batch
  complete_batch-Writes a ids state result error d k now db =
      complete_chunks-Writes a state result error d k now _ 0 db

  fail_chunks-Writes :
      (account_id now : ℕ) (chunks : List (List ℕ)) (exhausted : ℕ) (db : Db)
      → Writes db (fail_chunks settings account_id now chunks exhausted db).1
  unfolding fail_chunks
  fail_chunks-Writes a now [] exhausted db = here
  fail_chunks-Writes a now (chunk ∷ chunks) exhausted db =
      Writes-trans
        (next (one (updates (is_pending_in a chunk) (burn_attempt now) (λ r. omega arith) db))
          (updates (is_spent_in settings a chunk) (exhaust now) (λ r. omega arith) _))
        (fail_chunks-Writes a now chunks _ _)

  fail_batch-Writes :
      (account_id : ℕ) (run_ids : List ℕ) (now : ℕ) (db : Db)
      → Writes db (fail_batch settings account_id run_ids now db).1
  unfolding fail_batch
  fail_batch-Writes a ids now db = fail_chunks-Writes a now _ 0 db

-- The rows with the id have burned at least `n` attempts.
abbrev pub Burned : ℕ → ℕ → Run → Type 0
Burned id n r = r.id ≡ id → n ≤ r.attempts

-- `id` is not a later id, and its rows have burned at least `n` attempts.
pub record IsBurned (id n : ℕ) (db : Db) : Type 0 where
  pub old : id < db.next_id
  pub rows : All (Burned id n) db.runs

insert_run-IsBurned :
    (id n : ℕ) (r : Run) (db : Db) → IsBurned id n db → IsBurned id n (insert_run r db)
unfolding insert_run
insert_run-IsBurned id n r db h = elim (Bool-cases (exists (same_key r) db.runs)) [
  | inl old ↦ rw old h
  | inr new ↦ rw new (record {
    old = omega (arith, h.old);
    rows = All-append (Burned id n) db.runs _ h.rows ((λ e. absurd (omega (arith, h.old))), tt);
  })
]

Write-IsBurned : (id n : ℕ) {a b : Db} → Write a b → IsBurned id n a → IsBurned id n b
Write-IsBurned id n (updates p f keeps db) h = record {
  old = h.old;
  rows = All-update (Burned id n) p f (λ r _ b. ground (arith, keeps r)) db.runs h.rows;
}
Write-IsBurned id n (removes p db) h = record {
  old = h.old;
  rows = All-remove (Burned id n) p db.runs h.rows;
}
Write-IsBurned id n (elsewhere db db' m e) h = record {
  old = omega (arith, h.old);
  rows = rw e h.rows;
}
Write-IsBurned id n (inserts r db) h = insert_run-IsBurned id n r db h

-- No sequence of writes takes an attempt back.
pub Writes-IsBurned : (id n : ℕ) {a b : Db} → Writes a b → IsBurned id n a → IsBurned id n b
Writes-IsBurned id n here h = h
Writes-IsBurned id n (next w s) h = Write-IsBurned id n s (Writes-IsBurned id n w h)

Keeps-Keyed : (f : Run → Run) → Keeps f → Keyed f
Keeps-Keyed f k a b = ground (arith, k a, k b)

Below-next : (n m : ℕ) (rs : List Run) → n ≤ m → All (λ r. r.id < n) rs → All (λ r. r.id < m) rs
Below-next n m [] h b = tt
Below-next n m (r ∷ rs) h b = (omega arith, Below-next n m rs h b.1)

Write-IsKeyed : {a b : Db} → Write a b → IsKeyed a → IsKeyed b
Write-IsKeyed (updates p f keeps db) k = update-IsKeyed p f (Keeps-Keyed f keeps) db k
Write-IsKeyed (inserts r db) k = insert_run-IsKeyed r db k
Write-IsKeyed (removes p db) k = record {
  unique = Unique-remove same_key p db.runs k.unique;
  ids = Unique-remove same_id p db.runs k.ids;
  fresh = All-remove (λ r. r.id < db.next_id) p db.runs k.fresh;
}
Write-IsKeyed (elsewhere db db' m e) k = record {
  unique = rw e k.unique;
  ids = rw e k.ids;
  fresh = rw e (Below-next db.next_id db'.next_id db.runs m k.fresh);
}

-- No sequence of writes breaks the unique constraint or gives an id twice.
pub Writes-IsKeyed : {a b : Db} → Writes a b → IsKeyed a → IsKeyed b
Writes-IsKeyed here k = k
Writes-IsKeyed (next w s) k = Write-IsKeyed s (Writes-IsKeyed w k)
