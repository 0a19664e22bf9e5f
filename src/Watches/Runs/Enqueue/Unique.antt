-- ===== src/Watches/Runs/Enqueue/Unique.antt =====
-- The keys of the run table under the inserts of apps/core/watches/services/runs/_service.py.
use openmagpie.Prelude.{
  ap, ap₂, ℕ, ◌+◌, ◌≡◌, refl, Bool, true, false, not, ◌||◌, List, [], ◌∷◌, map, arith, ◌==◌, inl,
  inr, length, length-append, exists, exists-append, select, All, Unique, Bool-cases,
}
use openmagpie.Watches.Model.{Run, Db, same_key, pending_run}
use openmagpie.Watches.Runs.Enqueue.{insert_run, bulk_create, enqueue, row_for, have}

exists-same_key :
    (q r : Run) (rs : List Run)
    → same_key q r ≡ true
    → exists (same_key q) rs ≡ exists (same_key r) rs
unfolding exists
exists-same_key q r [] h = refl
exists-same_key q r (x ∷ rs) h = ap₂ ◌||◌ (same_key_trans q r x h) (exists-same_key q r rs h)
  where
    same_key_trans : (q r x : Run) → same_key q r ≡ true → same_key q x ≡ same_key r x
    same_key_trans q r x h = ground arith

-- A key is there after an insert if it was there, or is the row's own.
pub exists-insert_run :
    (r q : Run) (db : Db)
    → exists (same_key q) (insert_run r db).runs ≡ (exists (same_key q) db.runs || same_key q r)
unfolding insert_run exists
exists-insert_run r q db = elim (Bool-cases (exists (same_key r) db.runs)) [
  | inl old ↦ rw old (ground (arith, exists-same_key q r db.runs))
  | inr fresh ↦
      rw fresh
        (ground (arith, exists-append (same_key q) db.runs (record r { id = db.next_id } ∷ [])))
]

-- A second insert of the same key does nothing.
insert_run_old : (r : Run) (db : Db) → exists (same_key r) db.runs ≡ true → insert_run r db ≡ db
unfolding insert_run
insert_run_old r db h = rw h

length-insert_run :
    (r : Run) (db : Db)
    → exists (same_key r) db.runs ≡ false
    → length (insert_run r db).runs ≡ length db.runs + 1
unfolding insert_run
length-insert_run r db h =
    rw h (omega (arith, length-append db.runs (record r { id = db.next_id } ∷ [])))

pub insert_run-eq-enqueue :
    (account_id watch_id action_id kind feed_item_id scheduled_at prior_run_id : ℕ) (db : Db)
    → (enqueue account_id watch_id action_id kind feed_item_id scheduled_at prior_run_id db).1
      ≡ insert_run
          (pending_run account_id watch_id action_id kind feed_item_id scheduled_at prior_run_id)
          db
unfolding enqueue
insert_run-eq-enqueue a w c k fid t p db = ground arith

module _ (account_id watch_id action_id kind scheduled_at : ℕ) where
  -- The reference for the batched enqueue: `enqueue` for one feed item after another.
  unfoldable pub enqueue_each : List ℕ → Db → Db
  enqueue_each [] db = db
  enqueue_each (fid ∷ ids) db =
      enqueue_each ids (enqueue account_id watch_id action_id kind fid scheduled_at 0 db).1

  abbrev row : ℕ → Run
  row = row_for account_id watch_id action_id kind scheduled_at

  abbrev has : Db → ℕ → Bool
  has = have account_id watch_id action_id kind scheduled_at

  has-insert : (fid x : ℕ) (db : Db) → has (insert_run (row fid) db) x ≡ (has db x || fid == x)
  has-insert fid x db = rw exists-insert_run (ap (λ b. has db x || b) (same fid x))
    where
      same : (fid x : ℕ) → same_key (row x) (row fid) ≡ (fid == x)
      same fid x = ground arith

  has-enqueue :
      (fid x : ℕ) (db : Db)
      → has (enqueue account_id watch_id action_id kind fid scheduled_at 0 db).1 x
        ≡ (has db x || fid == x)
  has-enqueue fid x db = rw insert_run-eq-enqueue (has-insert fid x db)

  -- The rows that the pre-filter drops would not have been inserted.
  pub bulk_create-select :
      (ids : List ℕ) (old db : Db)
      → ((x : ℕ) → has old x ≡ true → has db x ≡ true)
      → bulk_create (map row (select (λ fid. not (has old fid)) ids)) db ≡ enqueue_each ids db
  unfolding bulk_create select enqueue_each
  bulk_create-select [] old db h = refl
  bulk_create-select (fid ∷ ids) old db h = elim (Bool-cases (has old fid)) [
    | inl there ↦
        rw (there, insert_run-eq-enqueue, insert_run_old (row fid) db (h fid there))
          (bulk_create-select ids old db h)
    | inr new ↦
        rw (new, insert_run-eq-enqueue)
          (bulk_create-select ids old (insert_run (row fid) db)
            (λ x there. rw has-insert (ground (arith, h x there))))
  ]

  -- None of the feed items has a run.
  abbrev AllNew : Db → List ℕ → Type 0
  AllNew db ids = All (λ x. has db x ≡ false) ids

  pub AllNew-select : (ids : List ℕ) (db : Db) → AllNew db (select (λ fid. not (has db fid)) ids)
  unfolding select
  AllNew-select [] db = tt
  AllNew-select (fid ∷ ids) db = ground (arith, AllNew-select ids db)

  AllNew-insert :
      (fid : ℕ) (ids : List ℕ) (db : Db)
      → exists (λ x. fid == x) ids ≡ false
      → AllNew db ids
      → AllNew (insert_run (row fid) db) ids
  unfolding exists
  AllNew-insert fid [] db h n = tt
  AllNew-insert fid (x ∷ ids) db h n =
      (rw has-insert (ground arith), AllNew-insert fid ids db (ground arith) n.1)

  -- Distinct new feed items are all inserted.
  pub length-bulk_create :
      (ids : List ℕ) (db : Db)
      → Unique ◌==◌ ids
      → AllNew db ids
      → length (bulk_create (map row ids) db).runs ≡ length db.runs + length ids
  unfolding bulk_create
  length-bulk_create [] db u n = omega arith
  length-bulk_create (fid ∷ ids) db u n = omega (
    arith,
    length-insert_run (row fid) db n.0,
    length-bulk_create ids (insert_run (row fid) db) u.1 (AllNew-insert fid ids db u.0 n.1),
  )

  -- Every feed item of a list has a run once each was enqueued.
  has-enqueue_each :
      (ids : List ℕ) (db : Db) (x : ℕ) → has db x ≡ true → has (enqueue_each ids db) x ≡ true
  unfolding enqueue_each
  has-enqueue_each [] db x h = h
  has-enqueue_each (fid ∷ ids) db x h = has-enqueue_each ids _ x (rw has-enqueue (ground arith))

  abbrev pub AllOld : Db → List ℕ → Type 0
  AllOld db ids = All (λ x. has db x ≡ true) ids

  pub AllOld-enqueue_each : (ids : List ℕ) (db : Db) → AllOld (enqueue_each ids db) ids
  unfolding enqueue_each
  AllOld-enqueue_each [] db = tt
  AllOld-enqueue_each (fid ∷ ids) db =
      (has-enqueue_each ids _ fid (rw has-enqueue (ground arith)), AllOld-enqueue_each ids _)
