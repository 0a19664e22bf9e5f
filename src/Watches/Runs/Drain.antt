-- ===== src/Watches/Runs/Drain.antt =====
-- apps/core/watches/services/runs/_drain.py.
use openmagpie.Prelude.{
  ℕ, ◌+◌, ◌-◌, Bool, false, not, ◌&&◌, Option, none, some, List, [], ◌∷◌, ltb, leb, ◌==◌,
  if◌then◌else◌, exists, select, count, update, find, order_by,
}
use openmagpie.Watches.Enums.{RunState, Message, state_eq, is_claimable}
use openmagpie.Watches.Model.{Settings, Run, Window, Db}

-- A comparison with a column that may be NULL: NULL fails it.
abbrev pub at_most : Option ℕ → ℕ → Bool
at_most none ts = false
at_most (some t) ts = leb t ts

abbrev pub before : Option ℕ → ℕ → Bool
before none ts = false
before (some t) ts = ltb t ts

-- `has_window`: the action of the run has a digest window row, open or not.
unfoldable pub has_window : List Window → Run → Bool
has_window windows r =
    exists (λ w. w.account_id == r.account_id && w.action_id == r.action_id) windows

module _ (settings : Settings) where
  -- The filter of `_due_runs`.
  unfoldable pub is_due : ℕ → List Window → Run → Bool
  is_due ts windows r =
      is_claimable r.state
      && ltb r.attempts settings.run_max_attempts
      && at_most r.scheduled_at ts
      && not (has_window windows r)

  unfoldable pub is_stale : ℕ → Run → Bool
  is_stale ts r =
      state_eq r.state RunState.running && before r.started_at (ts - settings.run_stale_seconds)

  unfoldable pub is_exhausted_stale : ℕ → Run → Bool
  unfolding is_stale
  is_exhausted_stale ts r = is_stale ts r && leb settings.run_max_attempts r.attempts

  unfoldable pub is_retryable_stale : ℕ → Run → Bool
  unfolding is_stale
  is_retryable_stale ts r = is_stale ts r && ltb r.attempts settings.run_max_attempts

  abbrev pub time_out_exhausted : ℕ → Run → Run
  time_out_exhausted ts r = record r {
    state = RunState.failed;
    error = Message.timed_out_exhausted;
    completed_at = some ts;
  }

  abbrev pub time_out : Run → Run
  time_out r = record r { state = RunState.failed; error = Message.timed_out; completed_at = none }

  -- The two updates, in their order, and the number of rows that they changed.
  unfoldable pub reap_stale : ℕ → Db → ℕ × Db
  reap_stale ts db =
      let exhausted = update (is_exhausted_stale ts) (time_out_exhausted ts) db.runs in
      let retryable = update (is_retryable_stale ts) time_out exhausted in
      (
        count (is_exhausted_stale ts) db.runs + count (is_retryable_stale ts) exhausted,
        record db { runs = retryable },
      )

  -- `order_by("scheduled_at")`; a due run has a schedule.
  abbrev pub scheduled_before : Run → Run → Bool
  scheduled_before a b = elim b.scheduled_at [ none ↦ false | some t ↦ before a.scheduled_at t ]

  unfoldable pub candidates : ℕ → Db → List Run
  candidates ts db = order_by scheduled_before (select (is_due ts db.windows) db.runs)

  -- The row that the claim's UPDATE matches: the CAS on the state that the snapshot saw.
  unfoldable pub is_claim_of : Run → Run → Bool
  is_claim_of snapshot r =
      r.id == snapshot.id
      && state_eq r.state snapshot.state
      && ltb r.attempts settings.run_max_attempts

  abbrev pub start : ℕ → Run → Run
  start ts r = record r {
    state = RunState.running;
    started_at = some ts;
    attempts = r.attempts + 1;
  }

  -- One turn of the loop: the claimed row, read again, or `none` if the CAS matched no row.
  unfoldable pub claim_one : ℕ → Run → Db → Option Run × Db
  claim_one ts snapshot db =
      let claimed = update (is_claim_of snapshot) (start ts) db.runs in
      if exists (is_claim_of snapshot) db.runs
      then (find (λ r. r.id == snapshot.id) claimed, record db { runs = claimed })
      else (none, db)

  -- The generator up to its next `yield`: the claimed row, the candidates that are left, the tables.
  unfoldable pub claim_next : ℕ → List Run → Db → Option (Run × List Run) × Db
  claim_next ts [] db = (none, db)
  claim_next ts (snapshot ∷ rest) db =
      let (claimed, db') = claim_one ts snapshot db in
      let later = claim_next ts rest db' in
      elim claimed [ none ↦ later | some r ↦ (some (r, rest), db') ]

  unfoldable pub count_due : ℕ → Db → ℕ
  count_due ts db = count (is_due ts db.windows) db.runs
