-- ===== src/Watches/Backfills.antt =====
-- The job table of apps/core/watches/services/backfills.py, with the guarded writes of
-- apps/core/watches/operations/backfill.py. What a job does to the runs is not modelled.
pub mod Claims
use openmagpie.Prelude.{
  ℕ, suc, ◌+◌, ◌-◌, ◌≡◌, Bool, true, false, not, ◌&&◌, ◌||◌, Option, none, some, List, [], ◌∷◌,
  ◌++◌, arith, ltb, leb, ◌==◌, if◌then◌else◌, exists, select, count, update, find, order_by,
}
use openmagpie.Schema.RunWindows.{RunWindows}
use openmagpie.Watches.Enums.{Message, blank, backfill_timed_out, backfill_timed_out_exhausted}
use openmagpie.Watches.Model.{Settings}
use openmagpie.Watches.Runs.Drain.{at_most, before}

-- `WatchActionBackfillState`.
pub data BackfillState : Type 0 where
  pending running done failed : BackfillState

abbrev pub backfill_code : BackfillState → ℕ
backfill_code pending = 0
backfill_code running = 1
backfill_code done = 2
backfill_code failed = 3

abbrev pub is_state : BackfillState → BackfillState → Bool
is_state a b = backfill_code a == backfill_code b

-- `BACKFILL_CLAIMABLE_STATES`.
abbrev pub is_backfill_claimable : BackfillState → Bool
is_backfill_claimable pending = true
is_backfill_claimable failed = true
is_backfill_claimable _ = false

-- `BackfillCounts`.
pub record BackfillCounts : Type 0 where
  pub matched : ℕ
  pub present : ℕ
  pub pruned : ℕ
  pub deleted : ℕ
  pub enqueued : ℕ

-- `WatchActionBackfill`.
pub record Backfill : Type 0 where
  pub id : ℕ
  pub account_id : ℕ
  pub watch_id : ℕ
  pub target_action_id : ℕ
  pub source_action_id : ℕ
  pub source_is_head : Bool
  pub kind : ℕ
  pub replace : Bool
  pub windows : RunWindows
  pub state : BackfillState
  pub counts : BackfillCounts
  pub replace_deleted_at : Option ℕ
  pub scheduled_at : Option ℕ
  pub started_at : Option ℕ
  pub completed_at : Option ℕ
  pub error : Message
  pub attempts : ℕ
  pub updated_at : ℕ

-- The table, and the next ULID.
pub record Jobs : Type 0 where
  pub rows : List Backfill
  pub next_id : ℕ

abbrev pub no_counts : BackfillCounts
no_counts = record { matched = 0; present = 0; pruned = 0; deleted = 0; enqueued = 0 }

-- `create`: the new row, and the table with it.
unfoldable pub create_job :
    (account_id watch_id target_action_id source_action_id : ℕ) (source_is_head : Bool) (kind : ℕ)
    (replace : Bool)
    → RunWindows
    → (scheduled_at now : ℕ) → Jobs
    → Backfill × Jobs
create_job account_id watch_id target_action_id source_action_id source_is_head kind replace windows
      scheduled_at now jobs =
    (row, record { rows = jobs.rows ++ row ∷ []; next_id = suc jobs.next_id })
  where
    row : Backfill
    row = record {
      id = jobs.next_id;
      account_id = account_id;
      watch_id = watch_id;
      target_action_id = target_action_id;
      source_action_id = source_action_id;
      source_is_head = source_is_head;
      kind = kind;
      replace = replace;
      windows = windows;
      state = pending;
      counts = no_counts;
      replace_deleted_at = none;
      scheduled_at = some scheduled_at;
      started_at = none;
      completed_at = none;
      error = blank;
      attempts = 0;
      updated_at = now;
    }

-- The row that the guarded UPDATEs of the operation match.
abbrev pub holds_job : Backfill → Backfill → Bool
holds_job job r = r.id == job.id && is_state r.state running && r.attempts == job.attempts

-- The write of the delete-once marker.
abbrev pub mark_deleted : (deleted now : ℕ) → Backfill → Backfill
mark_deleted deleted now r = record r {
  replace_deleted_at = some now;
  counts = record (r.counts) { deleted = deleted };
  updated_at = now;
}

-- The guarded stamp of `_delete_phase`; the job in memory is stamped even if the claim is lost.
unfoldable pub stamp_deleted : Backfill → (deleted now : ℕ) → Jobs → Backfill × Jobs
stamp_deleted job deleted now jobs = (
  record job { replace_deleted_at = some now; counts = record (job.counts) { deleted = deleted } },
  record jobs { rows = update (holds_job job) (mark_deleted deleted now) jobs.rows },
)

-- The fields that `_finish` writes; without counts, those of the row stay.
abbrev pub or_counts : Option BackfillCounts → BackfillCounts → BackfillCounts
or_counts none old = old
or_counts (some new) old = new

module _ (settings : Settings) where
  unfoldable pub is_stale_job : ℕ → Backfill → Bool
  is_stale_job ts r =
      is_state r.state running && before r.started_at (ts - settings.backfill_stale_seconds)

  abbrev pub is_exhausted_job : ℕ → Backfill → Bool
  is_exhausted_job ts r = is_stale_job ts r && leb settings.backfill_max_attempts r.attempts

  abbrev pub is_retryable_job : ℕ → Backfill → Bool
  is_retryable_job ts r = is_stale_job ts r && ltb r.attempts settings.backfill_max_attempts

  abbrev pub exhaust_job : ℕ → Backfill → Backfill
  exhaust_job ts r = record r {
    state = failed;
    error = backfill_timed_out_exhausted;
    completed_at = some ts;
    updated_at = ts;
  }

  abbrev pub retry_job : ℕ → Backfill → Backfill
  retry_job ts r = record r {
    state = failed;
    error = backfill_timed_out;
    completed_at = none;
    updated_at = ts;
  }

  -- `reap_stale`: the two updates, in their order, and the number of rows that they changed.
  unfoldable pub reap_stale_jobs : ℕ → Jobs → ℕ × Jobs
  reap_stale_jobs ts jobs =
      let exhausted = update (is_exhausted_job ts) (exhaust_job ts) jobs.rows in
      let retryable = update (is_retryable_job ts) (retry_job ts) exhausted in
      (
        count (is_exhausted_job ts) jobs.rows + count (is_retryable_job ts) exhausted,
        record jobs { rows = retryable },
      )

  abbrev pub is_due_job : ℕ → Backfill → Bool
  is_due_job ts r =
      is_backfill_claimable r.state
      && ltb r.attempts settings.backfill_max_attempts
      && at_most r.scheduled_at ts

  abbrev pub job_before : Backfill → Backfill → Bool
  job_before a b = elim b.scheduled_at [ none ↦ false | some t ↦ before a.scheduled_at t ]

  unfoldable pub job_candidates : ℕ → Jobs → List Backfill
  job_candidates ts jobs = order_by job_before (select (is_due_job ts) jobs.rows)

  -- The row that the claim's UPDATE matches.
  abbrev pub is_claim_of_job : Backfill → Backfill → Bool
  is_claim_of_job snapshot r =
      r.id == snapshot.id
      && is_state r.state snapshot.state
      && ltb r.attempts settings.backfill_max_attempts

  abbrev pub start_job : ℕ → Backfill → Backfill
  start_job ts r = record r {
    state = running;
    started_at = some ts;
    attempts = r.attempts + 1;
    updated_at = ts;
  }

  -- One turn of the loop of `claim_due`: the claimed row, read again, or `none`.
  unfoldable pub claim_job : ℕ → Backfill → Jobs → Option Backfill × Jobs
  claim_job ts snapshot jobs =
      let claimed = update (is_claim_of_job snapshot) (start_job ts) jobs.rows in
      if exists (is_claim_of_job snapshot) jobs.rows
      then (find (λ r. r.id == snapshot.id) claimed, record jobs { rows = claimed })
      else (none, jobs)

  unfoldable pub finish_row :
      BackfillState
      → Option BackfillCounts
      → Message
      → (exhaust : Bool) → (now : ℕ) → Backfill
      → Backfill
  finish_row state counts error exhaust now r = record r {
    state = state;
    counts = or_counts counts r.counts;
    error = error;
    completed_at = some now;
    updated_at = now;
    attempts = if exhaust then settings.backfill_max_attempts else r.attempts;
  }

  -- `_finish`: whether it won, and the table.
  unfoldable pub finish_job :
      Backfill
      → BackfillState
      → Option BackfillCounts
      → Message
      → (exhaust : Bool) → (now : ℕ) → Jobs
      → Bool × Jobs
  finish_job job state counts error exhaust now jobs = (
    exists (holds_job job) jobs.rows,
    record jobs {
      rows = update (holds_job job) (finish_row state counts error exhaust now) jobs.rows;
    },
  )

  -- `_fail`.
  unfoldable pub fail_job : Backfill → Message → (now : ℕ) → Jobs → Bool × Jobs
  unfolding finish_job
  fail_job job message now jobs = finish_job job failed none message true now jobs
