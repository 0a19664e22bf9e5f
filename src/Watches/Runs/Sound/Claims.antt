-- ===== src/Watches/Runs/Sound/Claims.antt =====
-- The invariant of the run table under a claim, the reaper and a completion of
-- apps/core/watches/services/runs.
use openmagpie.Prelude.{ℕ, ◌≡◌, ◌≢◌, true, arith, exists, Bool-cases, inl, inr}
use openmagpie.Watches.Enums.{RunState, pending, running, Message, is_claimable}
use openmagpie.Watches.Model.{Settings, Run, Db}
use openmagpie.Watches.Runs.Drain.{
  is_exhausted_stale, is_retryable_stale, time_out_exhausted, time_out, reap_stale, is_claim_of,
  start, claim_one,
}
use openmagpie.Watches.Runs.Complete.{completion_ts, complete, finish, holds_claim}
use openmagpie.Watches.Runs.Sound.{IsConsistent, IsSound, update-IsSound}

module _ (settings : Settings) where
  start-IsConsistent :
      (ts : ℕ) (snapshot r : Run)
      → is_claimable snapshot.state ≡ true
      → is_claim_of settings snapshot r ≡ true
      → IsConsistent settings r
      → IsConsistent settings (start settings ts r)
  unfolding is_claim_of
  start-IsConsistent ts snapshot r c h i = ground arith

  -- A claim from a claimable snapshot keeps the invariant of the run table.
  pub claim_one-IsSound :
      (ts : ℕ) (snapshot : Run) (db : Db)
      → is_claimable snapshot.state ≡ true
      → IsSound settings db
      → IsSound settings (claim_one settings ts snapshot db).1
  unfolding claim_one
  claim_one-IsSound ts snapshot db c s =
      elim (Bool-cases (exists (is_claim_of settings snapshot) db.runs)) [
        | inl hit ↦ rw hit (
            update-IsSound settings (is_claim_of settings snapshot) (start settings ts)
              (λ a b. ground arith) (λ r. start-IsConsistent ts snapshot r c) db s)
        | inr miss ↦ rw miss s
      ]

  exhausted-IsConsistent :
      (ts : ℕ) (r : Run)
      → is_exhausted_stale settings ts r ≡ true
      → IsConsistent settings r
      → IsConsistent settings (time_out_exhausted settings ts r)
  unfolding is_exhausted_stale
  exhausted-IsConsistent ts r h i = ground arith

  retryable-IsConsistent :
      (ts : ℕ) (r : Run)
      → is_retryable_stale settings ts r ≡ true
      → IsConsistent settings r
      → IsConsistent settings (time_out settings r)
  unfolding is_retryable_stale
  retryable-IsConsistent ts r h i = ground arith

  -- The reaper keeps the invariant of the run table.
  reap_stale-IsSound :
      (ts : ℕ) (db : Db) → IsSound settings db → IsSound settings (reap_stale settings ts db).1
  unfolding reap_stale
  reap_stale-IsSound ts db s =
      update-IsSound settings (is_retryable_stale settings ts) (time_out settings)
        (λ a b. ground arith) (retryable-IsConsistent ts) _
        (update-IsSound settings (is_exhausted_stale settings ts) (time_out_exhausted settings ts)
          (λ a b. ground arith) (exhausted-IsConsistent ts) db s)

  finish-IsConsistent :
      (run r : Run) (state : RunState) (result : ℕ) (error : Message) (delivery_id kind now : ℕ)
      → state ≢ pending
      → state ≢ running
      → holds_claim run r ≡ true
      → IsConsistent settings r
      → IsConsistent settings (
          finish state result error delivery_id kind
            (completion_ts settings state run.attempts now)
            now
            r)
  unfolding completion_ts
  finish-IsConsistent run r state result error delivery_id kind now p q h i = ground arith

  -- A completion with an outcome that is neither PENDING nor RUNNING keeps the invariant of the
  -- run table, also if it is lost.
  pub complete-IsSound :
      (account_id : ℕ) (run : Run) (state : RunState) (result : ℕ) (error : Message)
      (delivery_id kind now : ℕ) (db : Db)
      → state ≢ pending
      → state ≢ running
      → IsSound settings db
      → IsSound settings
          (complete settings account_id run state result error delivery_id kind now db).1
  unfolding complete
  complete-IsSound account_id run state result error delivery_id kind now db p q s = ground (
    arith,
    update-IsSound settings (holds_claim run)
        (finish state result error delivery_id kind (completion_ts settings state run.attempts now)
          now)
        (λ a b. ground arith)
        (λ r. finish-IsConsistent run r state result error delivery_id kind now p q) db s,
  )
