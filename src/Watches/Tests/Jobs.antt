-- ===== src/Watches/Tests/Jobs.antt =====
-- The theorems of the backfill jobs, at a table with one new job.
use openmagpie.Prelude.{◌≡◌, refl, true, false, none, some, [], arith, exists, find, update}
use openmagpie.Schema.RunWindows.{RunWindows}
use openmagpie.Watches.Enums.{blank, backfill_target_gone}
use openmagpie.Watches.Backfills.{
  running, done, failed, Backfill, Jobs, create_job, claim_job, finish_job, fail_job, no_counts,
}
use openmagpie.Watches.Backfills.Claims.{
  IsTracked, AllTracked, claim_job-AllTracked, finish_job-AllTracked, claim_job_exclusive,
  finish_job_once,
}
use openmagpie.Watches.Tests.{limits}

abbrev always : RunWindows
always = record {
  occurred_since = none;
  occurred_until = none;
  completed_since = none;
  completed_until = none;
}

abbrev created : Backfill × Jobs
created = create_job 1 2 10 0 true 5 false always 50 50 (record { rows = []; next_id = 400 })

abbrev job : Backfill
job = created.0

abbrev jobs : Jobs
jobs = created.1

job-IsTracked : IsTracked limits job
unfolding create_job
job-IsTracked = ground arith

jobs-AllTracked : AllTracked limits jobs
unfolding create_job
jobs-AllTracked = (job-IsTracked, tt)

abbrev taken : Backfill
taken = record job { state = running; started_at = some 60; attempts = 1; updated_at = 60 }

abbrev taken_jobs : Jobs
taken_jobs = (claim_job limits 60 job jobs).1

take_lem : claim_job limits 60 job jobs ≡ (some taken, taken_jobs)
unfolding claim_job create_job exists find update
take_lem = refl

taken-AllTracked : AllTracked limits taken_jobs
taken-AllTracked =
    claim_job-AllTracked limits 60 job jobs (unfold create_job in refl) jobs-AllTracked

claim_job_exclusive_example : claim_job limits 61 job taken_jobs ≡ (none, taken_jobs)
claim_job_exclusive_example =
    claim_job_exclusive limits 60 61 job taken jobs taken_jobs (unfold create_job in refl) take_lem

finish_job-AllTracked_example :
    AllTracked limits
      (finish_job limits taken done (some no_counts) backfill_target_gone false 70 taken_jobs).1
    × AllTracked limits (fail_job limits taken backfill_target_gone 70 taken_jobs).1
finish_job-AllTracked_example =
    finish_job-AllTracked limits taken (some no_counts) backfill_target_gone 70 taken_jobs
      taken-AllTracked

abbrev finished_jobs : Jobs
finished_jobs = (finish_job limits taken done (some no_counts) blank false 70 taken_jobs).1

finish_job_once_example :
    finish_job limits taken failed none backfill_target_gone true 71 finished_jobs
    ≡ (false, finished_jobs)
finish_job_once_example =
    finish_job_once limits taken done failed (some no_counts) none blank backfill_target_gone false
      true 70 71 taken_jobs refl
