-- ===== src/Watches/Tests/Runs.antt =====
-- The theorems of the run queue, at the test deployment.
use openmagpie.Prelude.{
  ℕ, ◌≡◌, refl, none, some, List, [], ◌∷◌, arith, exists, find, select, update, batched,
}
use openmagpie.Watches.Enums.{RunState, running, succeeded, errored, Message, blank, item_gone}
use openmagpie.Watches.Model.{Run, Db}
use openmagpie.Watches.Runs.Enqueue.{
  enqueue, enqueue_many, enqueue_chunks, enqueue_chunk, insert_run, bulk_create,
}
use openmagpie.Watches.Runs.Enqueue.Unique.{enqueue_each}
use openmagpie.Watches.Runs.Enqueue.Batches.{enqueue_many-eq-enqueue_each}
use openmagpie.Watches.Runs.Drain.{
  claim_one, is_claim_of, reap_stale, is_stale, is_exhausted_stale, is_retryable_stale,
}
use openmagpie.Watches.Runs.Complete.{lost, won, complete, completion_ts}
use openmagpie.Watches.Runs.Sound.{IsSound}
use openmagpie.Watches.Runs.Sound.Claims.{claim_one-IsSound}
use openmagpie.Watches.Runs.Writes.{here, reap_stale-Writes}
use openmagpie.Watches.Runs.Fencing.{claim_one_exclusive, complete_once, stale_completion_lost}
use openmagpie.Watches.Tests.{limits, db, judge_run, db-IsSound, db-IsKeyed}

-- The judge's run once a drain has claimed it.
abbrev claimed : Run
claimed = record judge_run { state = running; started_at = some 60; attempts = 1 }

abbrev claimed_db : Db
claimed_db = (claim_one limits 60 judge_run db).1

claim_lem : claim_one limits 60 judge_run db ≡ (some claimed, claimed_db)
unfolding claim_one is_claim_of exists find update
claim_lem = refl

claim_one_exclusive_example : claim_one limits 61 judge_run claimed_db ≡ (none, claimed_db)
claim_one_exclusive_example =
    claim_one_exclusive limits 60 61 judge_run claimed db claimed_db refl claim_lem

-- The reaper resets the run after 30 seconds, and a second drain claims it.
abbrev reaped_db : Db
reaped_db = (reap_stale limits 95 claimed_db).1

abbrev reaped : Run
reaped = record claimed { state = RunState.failed; error = Message.timed_out }

abbrev again : Run
again = record reaped { state = running; started_at = some 96; attempts = 2 }

abbrev again_db : Db
again_db = (claim_one limits 96 reaped reaped_db).1

again_lem : claim_one limits 96 reaped reaped_db ≡ (some again, again_db)
unfolding claim_one is_claim_of exists find update reap_stale is_stale is_exhausted_stale
    is_retryable_stale
again_lem = refl

stale_completion_lost_example :
    complete limits 1 claimed succeeded 8 blank 0 5 97 again_db ≡ (lost, again_db)
stale_completion_lost_example =
    stale_completion_lost limits 60 96 judge_run reaped claimed again db claimed_db reaped_db
      again_db again_db succeeded 8 blank 0 5 97 db-IsKeyed claim_lem
      (reap_stale-Writes limits 95 claimed_db) again_lem refl here

abbrev done : Run
done = record claimed { state = succeeded; result = 8; completed_at = some 70 }

abbrev done_db : Db
done_db = (complete limits 1 claimed succeeded 8 blank 0 5 70 claimed_db).1

done_lem : complete limits 1 claimed succeeded 8 blank 0 5 70 claimed_db ≡ (won done, done_db)
unfolding complete completion_ts claim_one is_claim_of exists find update
done_lem = refl

complete_once_example :
    complete limits 1 claimed errored 0 item_gone 0 0 71 done_db ≡ (lost, done_db)
complete_once_example =
    complete_once limits claimed 1 succeeded 8 blank 0 5 70 errored 0 item_gone 0 0 71 claimed_db
      done done_db (ground arith) done_lem

-- Two of the ids are new: 100 has a run.
abbrev arrived : List ℕ
arrived = 100 ∷ 101 ∷ 102 ∷ []

enqueue_many-eq-enqueue_each_example :
    (n : ℕ) × (enqueue_many 1 2 10 5 60 arrived db ≡ some (n, enqueue_each 1 2 10 5 60 arrived db))
enqueue_many-eq-enqueue_each_example = enqueue_many-eq-enqueue_each 1 2 10 5 60 arrived db

abbrev arrived_db : Db
arrived_db = enqueue_each 1 2 10 5 60 arrived db

enqueue_arrived : enqueue_many 1 2 10 5 60 arrived db ≡ some (2, arrived_db)
unfolding enqueue_many enqueue_chunks enqueue_chunk insert_run bulk_create enqueue_each enqueue
    batched select exists
enqueue_arrived = refl

claimed_db-IsSound : IsSound limits claimed_db
claimed_db-IsSound = claim_one-IsSound limits 60 judge_run db refl db-IsSound
