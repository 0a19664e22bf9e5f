-- ===== src/Watches/Backfills/Claims.antt =====
-- The claims, the reaper and the guarded finishes of the backfill jobs of
-- apps/core/watches/services/backfills.py, as a state machine.
use openmagpie.Prelude.{
  ℕ, ◌≤◌, ◌<◌, ◌≡◌, refl, subst, Bool, true, false, ◌&&◌, ◌||◌, Option, none, some, List, [], ◌∷◌,
  arith, leb, is_some, exists, update, All, All-update, update-none, Bool-cases, inl, inr,
}
use openmagpie.Watches.Enums.{Message}
use openmagpie.Watches.Model.{Settings}
use openmagpie.Watches.Backfills.{
  BackfillState, pending, running, done, failed, is_state, is_backfill_claimable, BackfillCounts,
  Backfill, Jobs, holds_job, is_stale_job, is_exhausted_job, is_retryable_job, exhaust_job,
  retry_job, reap_stale_jobs, is_claim_of_job, start_job, claim_job, finish_row, finish_job,
  fail_job,
}

-- A job that no claim takes again: DONE, or FAILED with no attempts left.
abbrev is_over : Settings → Backfill → Bool
is_over settings r =
    is_state r.state done
    || (is_state r.state failed && leb settings.backfill_max_attempts r.attempts)

-- The attempts are within the cap, a running job has burned one, and a job has a completion time
-- exactly if it is over.
pub record IsTracked (settings : Settings) (r : Backfill) : Type 0 where
  pub capped : r.attempts ≤ settings.backfill_max_attempts
  pub pending_open : r.state ≡ pending → r.attempts < settings.backfill_max_attempts
  pub running_burned : r.state ≡ running → 0 < r.attempts
  pub completed : is_some r.completed_at ≡ is_over settings r

abbrev pub AllTracked : Settings → Jobs → Type 0
AllTracked settings jobs = All (IsTracked settings) jobs.rows

module _ (settings : Settings) where
  start_job-IsTracked :
      (ts : ℕ) (snapshot r : Backfill)
      → is_backfill_claimable snapshot.state ≡ true
      → is_claim_of_job settings snapshot r ≡ true
      → IsTracked settings r
      → IsTracked settings (start_job settings ts r)
  start_job-IsTracked ts snapshot r c h i = ground arith

  -- A claim from a claimable snapshot keeps every job tracked: the attempts are within the cap, a
  -- RUNNING job has burned one, and a job has a completion time exactly if it is over.
  pub claim_job-AllTracked :
      (ts : ℕ) (snapshot : Backfill) (jobs : Jobs)
      → is_backfill_claimable snapshot.state ≡ true
      → AllTracked settings jobs
      → AllTracked settings (claim_job settings ts snapshot jobs).1
  unfolding claim_job
  claim_job-AllTracked ts snapshot jobs c s =
      elim (Bool-cases (exists (is_claim_of_job settings snapshot) jobs.rows)) [
        | inl hit ↦ rw hit (
            All-update (IsTracked settings) (is_claim_of_job settings snapshot)
              (start_job settings ts) (λ r. start_job-IsTracked ts snapshot r c) jobs.rows s)
        | inr miss ↦ rw miss s
      ]

  exhaust_job-IsTracked :
      (ts : ℕ) (r : Backfill)
      → is_exhausted_job settings ts r ≡ true
      → IsTracked settings r
      → IsTracked settings (exhaust_job settings ts r)
  unfolding is_stale_job
  exhaust_job-IsTracked ts r h i = ground arith

  retry_job-IsTracked :
      (ts : ℕ) (r : Backfill)
      → is_retryable_job settings ts r ≡ true
      → IsTracked settings r
      → IsTracked settings (retry_job settings ts r)
  unfolding is_stale_job
  retry_job-IsTracked ts r h i = ground arith

  -- The reaper of stale backfill jobs keeps every job tracked.
  reap_stale_jobs-AllTracked :
      (ts : ℕ) (jobs : Jobs)
      → AllTracked settings jobs
      → AllTracked settings (reap_stale_jobs settings ts jobs).1
  unfolding reap_stale_jobs
  reap_stale_jobs-AllTracked ts jobs s =
      All-update (IsTracked settings) (is_retryable_job settings ts) (retry_job settings ts)
        (retry_job-IsTracked ts) _
        (All-update (IsTracked settings) (is_exhausted_job settings ts) (exhaust_job settings ts)
          (exhaust_job-IsTracked ts) jobs.rows s)

  finish_row-IsTracked :
      (job r : Backfill) (counts : Option BackfillCounts) (error : Message) (now : ℕ)
      → holds_job job r ≡ true
      → IsTracked settings r
      → IsTracked settings (finish_row settings done counts error false now r)
  unfolding finish_row
  finish_row-IsTracked job r counts error now h i = ground arith

  fail_row-IsTracked :
      (job r : Backfill) (error : Message) (now : ℕ)
      → holds_job job r ≡ true
      → IsTracked settings r
      → IsTracked settings (finish_row settings failed none error true now r)
  unfolding finish_row
  fail_row-IsTracked job r error now h i = ground arith

  -- A finish as DONE, with any counts, and a permanent failure each keep every job tracked, also
  -- if they are lost.
  pub finish_job-AllTracked :
      (job : Backfill) (counts : Option BackfillCounts) (error : Message) (now : ℕ) (jobs : Jobs)
      → AllTracked settings jobs
      → AllTracked settings (finish_job settings job done counts error false now jobs).1
        × AllTracked settings (fail_job settings job error now jobs).1
  unfolding finish_job fail_job
  finish_job-AllTracked job counts error now jobs s = (
    All-update (IsTracked settings) (holds_job job)
        (finish_row settings done counts error false now)
        (λ r. finish_row-IsTracked job r counts error now) jobs.rows s,
    All-update (IsTracked settings) (holds_job job) (finish_row settings failed none error true now)
        (λ r. fail_row-IsTracked job r error now) jobs.rows s,
  )

  unclaimed_jobs :
      (ts : ℕ) (snapshot : Backfill) (rs : List Backfill)
      → is_backfill_claimable snapshot.state ≡ true
      → exists
          (is_claim_of_job settings snapshot)
          (update (is_claim_of_job settings snapshot) (start_job settings ts) rs)
        ≡ false
  unfolding exists update
  unclaimed_jobs ts snapshot [] c = refl
  unclaimed_jobs ts snapshot (r ∷ rs) c = ground (arith, unclaimed_jobs ts snapshot rs c)

  claim_job-none :
      (later : ℕ) (snapshot : Backfill) (jobs : Jobs)
      → exists (is_claim_of_job settings snapshot) jobs.rows ≡ false
      → claim_job settings later snapshot jobs ≡ (none, jobs)
  unfolding claim_job
  claim_job-none later snapshot jobs h = rw h

  -- Two workers with the same snapshot of a claimable backfill job: once one has claimed it, the
  -- other's claim returns no job and changes nothing.
  pub claim_job_exclusive :
      (ts later : ℕ) (snapshot claimed : Backfill) (jobs jobs' : Jobs)
      → is_backfill_claimable snapshot.state ≡ true
      → claim_job settings ts snapshot jobs ≡ (some claimed, jobs')
      → claim_job settings later snapshot jobs' ≡ (none, jobs')
  claim_job_exclusive ts later snapshot claimed jobs jobs' c e =
      claim_job-none later snapshot jobs'
        (elim (Bool-cases (exists (is_claim_of_job settings snapshot) jobs.rows)) [
          | inl hit ↦
              let same : record jobs {
                rows = update (is_claim_of_job settings snapshot) (start_job settings ts) jobs.rows;
              }
                  ≡ jobs' =
                unfold claim_job in ground arith in
              subst (λ (j : Jobs). exists (is_claim_of_job settings snapshot) j.rows ≡ false) same
                (unclaimed_jobs ts snapshot jobs.rows c)
          | inr miss ↦ absurd (unfold claim_job in ground arith)
        ])

  released :
      (job : Backfill) (state : BackfillState) (counts : Option BackfillCounts) (error : Message)
      (exhausted : Bool) (now : ℕ)
      → is_state state running ≡ false
      → (rs : List Backfill)
      → exists
          (holds_job job)
          (update (holds_job job) (finish_row settings state counts error exhausted now) rs)
        ≡ false
  unfolding exists update finish_row
  released job state counts error exhausted now h [] = refl
  released job state counts error exhausted now h (r ∷ rs) =
      ground (arith, released job state counts error exhausted now h rs)

  -- Once a worker has finished a backfill job with a state other than RUNNING, every later finish
  -- by the same claim is lost and changes nothing.
  pub finish_job_once :
      (job : Backfill) (state state' : BackfillState) (counts counts' : Option BackfillCounts)
      (error error' : Message) (exhausted exhausted' : Bool) (now now' : ℕ) (jobs : Jobs)
      → is_state state running ≡ false
      → let jobs' = (finish_job settings job state counts error exhausted now jobs).1 in
        finish_job settings job state' counts' error' exhausted' now' jobs' ≡ (false, jobs')
  unfolding finish_job
  finish_job_once job state state' counts counts' error error' exhausted exhausted' now now' jobs
        h =
      let gone = released job state counts error exhausted now h jobs.rows in
      rw (
        gone,
        update-none (holds_job job) (finish_row settings state' counts' error' exhausted' now') _
            gone,
      )
