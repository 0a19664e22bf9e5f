-- ===== src/Watches/Runs/Sound.antt =====
-- The invariant of the run table between two operations of apps/core/watches/services/runs.
pub mod Claims
pub mod Batches
use openmagpie.Prelude.{
  sym, subst, ap, ℕ, suc, ◌+◌, ◌≤◌, ◌<◌, ◌≡◌, ◌≢◌, refl, Bool, true, false, not, ◌&&◌, ◌||◌, Option,
  none, some, List, [], ◌∷◌, ◌++◌, map, arith, ltb, leb, ◌==◌, if◌then◌else◌, is_some, exists,
  select, count, update, All, Unique, All-append, All-update, Unique-update, Unique-append_one,
  batched, Bool-cases, inl, inr,
}
use openmagpie.Watches.Enums.{
  RunState, pending, running, failed, Message, state_eq, is_terminal, is_claimable,
}
use openmagpie.Watches.Model.{
  Settings, Run, Db, same_key, same_key_symm, same_id, same_id_symm, pending_run,
}
use openmagpie.Watches.Runs.Enqueue.{
  insert_run, bulk_create, enqueue, enqueue_chunk, enqueue_chunks, enqueue_many, row_for, have,
  advance_rows, enqueue_advance_batch,
}
use openmagpie.Watches.Runs.Drain.{
  is_exhausted_stale, is_retryable_stale, time_out_exhausted, time_out, reap_stale, is_claim_of,
  start, claim_one,
}
use openmagpie.Watches.Runs.Complete.{
  completion_ts, complete, finish, holds_claim, is_pending_in, complete_chunks, complete_batch,
  burn_attempt, exhaust, is_spent_in, fail_chunks, fail_batch, Completion,
}

-- The run has reached its final state: a terminal one, or FAILED with no attempts left.
abbrev pub is_done : Settings → RunState → ℕ → Bool
is_done settings state attempts =
    is_terminal state || (state_eq state failed && leb settings.run_max_attempts attempts)

pub record IsConsistent (settings : Settings) (r : Run) : Type 0 where
  pub capped : r.attempts ≤ settings.run_max_attempts
  pub pending_open : r.state ≡ pending → r.attempts < settings.run_max_attempts
  pub running_burned : r.state ≡ running → 0 < r.attempts
  pub completed : is_some r.completed_at ≡ is_done settings r.state r.attempts

-- The run table's keys: the unique constraint and the primary key.
pub record IsKeyed (db : Db) : Type 0 where
  pub unique : Unique same_key db.runs
  pub ids : Unique same_id db.runs
  pub fresh : All (λ r. r.id < db.next_id) db.runs

-- The invariant of the run table.
pub record IsSound (settings : Settings) (db : Db) : Type 0 where
  pub consistent : All (IsConsistent settings) db.runs
  pub keyed : IsKeyed db
  pub open keyed use {unique, ids, fresh}

-- An update that leaves the id and the key of a row.
abbrev pub Keyed : (Run → Run) → Type 0
Keyed f =
    (a b : Run)
    → (same_key a (f b) ≡ same_key a b) × (same_key (f a) b ≡ same_key a b) × ((f a).id ≡ a.id)

pub update-IsKeyed :
    (p : Run → Bool) (f : Run → Run)
    → Keyed f
    → (db : Db) → IsKeyed db
    → IsKeyed (record db { runs = update p f db.runs })
update-IsKeyed p f keyed db s = record {
  unique =
      Unique-update same_key p f (λ a b. (keyed a b).0) (λ a b. (keyed a b).1) db.runs s.unique;
  ids =
      Unique-update same_id p f (λ a b. ap (λ n. a.id == n) (keyed b b).2)
        (λ a b. ap (λ n. n == b.id) (keyed a a).2) db.runs s.ids;
  fresh =
      All-update (λ r. r.id < db.next_id) p f
        (λ r _ h. subst (λ n. n < db.next_id) (sym (keyed r r).2) h) db.runs s.fresh;
}

Below-fresh :
    (n : ℕ) (r : Run) (rs : List Run)
    → r.id ≡ n
    → All (λ q. q.id < n) rs
    → exists (same_id r) rs ≡ false
unfolding exists
Below-fresh n r [] e h = refl
Below-fresh n r (q ∷ rs) e h = ground (arith, Below-fresh n r rs e h.1)

Below-suc : (n : ℕ) (rs : List Run) → All (λ q. q.id < n) rs → All (λ q. q.id < suc n) rs
Below-suc n [] h = tt
Below-suc n (q ∷ rs) h = (omega arith, Below-suc n rs h.1)

pub insert_run-IsKeyed : (r : Run) (db : Db) → IsKeyed db → IsKeyed (insert_run r db)
unfolding insert_run
insert_run-IsKeyed r db k = elim (Bool-cases (exists (same_key r) db.runs)) [
  | inl old ↦ rw old k
  | inr fresh ↦ rw fresh (record {
    unique = Unique-append_one same_key same_key_symm db.runs _ k.unique fresh;
    ids =
        Unique-append_one same_id same_id_symm db.runs _ k.ids
          (Below-fresh db.next_id (record r { id = db.next_id }) db.runs refl k.fresh);
    fresh =
        All-append (λ q. q.id < suc db.next_id) db.runs _ (Below-suc db.next_id db.runs k.fresh)
          (omega arith, tt);
  })
]

module _ (settings : Settings) where
  -- An update of rows that keeps their keys and their consistency keeps the invariant.
  pub update-IsSound :
      (p : Run → Bool) (f : Run → Run)
      → Keyed f
      → ((r : Run) → p r ≡ true → IsConsistent settings r → IsConsistent settings (f r))
      → (db : Db) → IsSound settings db
      → IsSound settings (record db { runs = update p f db.runs })
  update-IsSound p f keyed keep db s = record {
    consistent = All-update (IsConsistent settings) p f keep db.runs s.consistent;
    keyed = update-IsKeyed p f keyed db s.keyed;
  }

  insert_run-IsConsistent :
      (r : Run) (db : Db)
      → IsConsistent settings r
      → All (IsConsistent settings) db.runs
      → All (IsConsistent settings) (insert_run r db).runs
  unfolding insert_run
  insert_run-IsConsistent r db new c = elim (Bool-cases (exists (same_key r) db.runs)) [
    | inl old ↦ rw old c
    | inr fresh ↦ rw fresh (All-append (IsConsistent settings) db.runs _ c (ground arith, tt))
  ]

  insert_run-IsSound :
      (r : Run) (db : Db)
      → IsConsistent settings r
      → IsSound settings db
      → IsSound settings (insert_run r db)
  insert_run-IsSound r db new s = record {
    consistent = insert_run-IsConsistent r db new s.consistent;
    keyed = insert_run-IsKeyed r db s.keyed;
  }

  pub bulk_create-IsSound :
      (rs : List Run) (db : Db)
      → All (IsConsistent settings) rs
      → IsSound settings db
      → IsSound settings (bulk_create rs db)
  unfolding bulk_create
  bulk_create-IsSound [] db new s = s
  bulk_create-IsSound (r ∷ rs) db new s =
      bulk_create-IsSound rs (insert_run r db) new.1 (insert_run-IsSound r db new.0 s)

  pub pending_run-IsConsistent :
      (account_id watch_id action_id kind feed_item_id scheduled_at prior_run_id : ℕ)
      → 0 < settings.run_max_attempts
      → IsConsistent settings
          (pending_run account_id watch_id action_id kind feed_item_id scheduled_at prior_run_id)
  pending_run-IsConsistent a w c k f s p h = ground arith
