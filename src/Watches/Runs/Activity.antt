-- ===== src/Watches/Runs/Activity.antt =====
-- `has_prior_succeeded` and `summary_for_action` of apps/core/watches/services/runs/_service.py.
use openmagpie.Prelude.{
  ℕ, ◌+◌, ◌≡◌, Bool, true, false, not, ◌&&◌, Option, none, some, List, [], ◌∷◌, arith, ltb, leb,
  ◌==◌, is_some, exists, count, All,
}
use openmagpie.Watches.Enums.{
  RunState, pending, running, succeeded, gated, failed, errored, skipped, state_eq,
}
use openmagpie.Watches.Model.{Settings, Run, Db}
use openmagpie.Watches.Runs.Sound.{IsConsistent, IsSound, is_done}

unfoldable pub has_prior_succeeded : (account_id watch_id exclude_run_id : ℕ) → Db → Bool
has_prior_succeeded account_id watch_id exclude_run_id db =
    exists
      (λ r.
        r.account_id == account_id
        && r.watch_id == watch_id
        && state_eq r.state succeeded
        && not (r.id == exclude_run_id))
      db.runs

-- `ActivitySummary`; a state without runs has the count 0.
pub record ActivitySummary : Type 0 where
  pub evaluated : RunState → ℕ
  pub pending_runs : ℕ
  pub running_runs : ℕ
  pub retrying : ℕ

-- `completed_at` in `[since, until)`.
abbrev pub in_period : (since : ℕ) (until : Option ℕ) → Option ℕ → Bool
in_period since until none = false
in_period since none (some t) = leb since t
in_period since (some u) (some t) = leb since t && ltb t u

module _ (account_id action_id : ℕ) where
  abbrev pub is_of_action : Run → Bool
  is_of_action r = r.account_id == account_id && r.action_id == action_id

  abbrev pub is_evaluated : (since : ℕ) (until : Option ℕ) → RunState → Run → Bool
  is_evaluated since until state r =
      is_of_action r && in_period since until r.completed_at && state_eq r.state state

  abbrev pub is_in_state : RunState → Run → Bool
  is_in_state state r = is_of_action r && state_eq r.state state

  abbrev pub is_retrying : Run → Bool
  is_retrying r = is_of_action r && state_eq r.state failed && not (is_some r.completed_at)

  unfoldable pub summary_for_action : (since : ℕ) (until : Option ℕ) → Db → ActivitySummary
  summary_for_action since until db = record {
    evaluated = λ state. count (is_evaluated since until state) db.runs;
    pending_runs = count (is_in_state pending) db.runs;
    running_runs = count (is_in_state running) db.runs;
    retrying = count is_retrying db.runs;
  }

-- All the numbers of a summary.
abbrev pub total : ActivitySummary → ℕ
total s =
    s.evaluated pending
    + s.evaluated running
    + s.evaluated succeeded
    + s.evaluated gated
    + s.evaluated failed
    + s.evaluated errored
    + s.evaluated skipped
    + s.pending_runs
    + s.running_runs
    + s.retrying

abbrev bit : Bool → ℕ
bit true = 1
bit false = 0

count-cons : (p : Run → Bool) (r : Run) (rs : List Run) → count p (r ∷ rs) ≡ bit (p r) + count p rs
unfolding count
count-cons p r rs = ground arith

module _ (settings : Settings) where
  -- A run of the action is in one number.
  abbrev number : RunState → Bool → Option ℕ → RunState → ℕ
  number s own o state = bit (own && in_period 0 none o && state_eq s state)

  row_total :
      (s : RunState) (own : Bool) (o : Option ℕ) (attempts : ℕ)
      → is_some o ≡ is_done settings s attempts
      → number s own o pending
          + number s own o running
          + number s own o succeeded
          + number s own o gated
          + number s own o failed
          + number s own o errored
          + number s own o skipped
          + bit (own && state_eq s pending)
          + bit (own && state_eq s running)
          + bit (own && state_eq s failed && not (is_some o))
        ≡ bit own
  row_total s false o attempts h = ground arith
  row_total pending true none attempts h = ground arith
  row_total running true none attempts h = ground arith
  row_total succeeded true none attempts h = ground arith
  row_total gated true none attempts h = ground arith
  row_total failed true none attempts h = ground arith
  row_total errored true none attempts h = ground arith
  row_total skipped true none attempts h = ground arith
  row_total pending true (some t) attempts h = ground arith
  row_total running true (some t) attempts h = ground arith
  row_total succeeded true (some t) attempts h = ground arith
  row_total gated true (some t) attempts h = ground arith
  row_total failed true (some t) attempts h = ground arith
  row_total errored true (some t) attempts h = ground arith
  row_total skipped true (some t) attempts h = ground arith

  rows_total :
      (account_id action_id : ℕ) (runs : List Run)
      → All (IsConsistent settings) runs
      → let n : RunState → ℕ =
          λ state. count (is_evaluated account_id action_id 0 none state) runs in
        n pending
          + n running
          + n succeeded
          + n gated
          + n failed
          + n errored
          + n skipped
          + count (is_in_state account_id action_id pending) runs
          + count (is_in_state account_id action_id running) runs
          + count (is_retrying account_id action_id) runs
        ≡ count (is_of_action account_id action_id) runs
  rows_total a c [] h = unfold count in omega arith
  rows_total a c (r ∷ runs) h = omega (
    arith,
    row_total r.state (is_of_action a c r) r.completed_at r.attempts h.0.completed,
    rows_total a c runs h.1,
    count-cons (is_evaluated a c 0 none pending) r runs,
    count-cons (is_evaluated a c 0 none running) r runs,
    count-cons (is_evaluated a c 0 none succeeded) r runs,
    count-cons (is_evaluated a c 0 none gated) r runs,
    count-cons (is_evaluated a c 0 none failed) r runs,
    count-cons (is_evaluated a c 0 none errored) r runs,
    count-cons (is_evaluated a c 0 none skipped) r runs,
    count-cons (is_in_state a c pending) r runs,
    count-cons (is_in_state a c running) r runs,
    count-cons (is_retrying a c) r runs,
    count-cons (is_of_action a c) r runs,
  )

-- When the run table satisfies its invariant, the numbers of an activity summary over all time
-- (evaluated by state, pending, running, retrying) add up to the number of the action's runs.
summary_for_action-total :
    (settings : Settings) (account_id action_id : ℕ) (db : Db)
    → IsSound settings db
    → total (summary_for_action account_id action_id 0 none db)
      ≡ count (is_of_action account_id action_id) db.runs
unfolding summary_for_action
summary_for_action-total settings a c db s = rows_total settings a c db.runs s.consistent
