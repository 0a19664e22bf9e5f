-- ===== src/Watches/Tests/Passes.antt =====
-- The theorems of the passes, at the test deployment.
use openmagpie.Prelude.{
  ◌≢◌, count, ◌≡◌, ◌⊎◌, refl, true, false, Option, none, some, [], ◌∷◌, arith, exists, find, length,
  select, update, order_by, insert_by, inl, inr,
}
use openmagpie.Watches.Enums.{running, errored, Message}
use openmagpie.Watches.Model.{Run, Action, Window, Db, Registry}
use openmagpie.Watches.Runs.Drain.{claim_one, is_claim_of, is_due}
use openmagpie.Watches.Runs.Complete.{digest_pending_count, complete, completion_ts, is_pending_of}
use openmagpie.Watches.Runs.Sound.{IsSound}
use openmagpie.Watches.Windows.{is_window, open_window, close_if_drained}
use openmagpie.Watches.Windows.Laws.{is_due_own, open_window_hides, close_if_drained-true}
use openmagpie.Watches.Chain.{next_in_chain, prev_in_chain, adjacent, get_action}
use openmagpie.Watches.Chain.Order.{IsSuccessor, next_in_chain-IsSuccessor, prev-next_in_chain}
use openmagpie.Watches.Advance.{enqueue_next_batch, enqueue_next, enqueue_successor, schedule}
use openmagpie.Watches.Advance.Effects.{AllHave, has_run, enqueue_next_batch-AllHave}
use openmagpie.Watches.Drain.{
  finished, claim_lost, drain, commit, advance, audit, resolve, resolve_action, resolve_item,
  run_impl, ran, enforce_result_schema, settled,
}
use openmagpie.Watches.Drain.Outcome.{drain_without_result, drain_success_advances, drain_stops}
use openmagpie.Watches.Drain.Sound.{drain-IsSound}
use openmagpie.Watches.Flush.{flush, out_of_fuel}
use openmagpie.Watches.Flush.Termination.{flush_terminates}
use openmagpie.Watches.Flush.Sound.{flush-IsSound}
use openmagpie.Watches.Trigger.{Progress, no_progress, at_once, scan_window}
use openmagpie.Watches.Tests.{
  limits, deployment, deployment-AllRest, db, db-IsSound, judge, notify, judge_run, watched,
  subscription, success,
}

abbrev window : Window
window = record { account_id = 1; action_id = 11; close_at = some 55 }

open_window_hides_example :
    is_due limits 500 (open_window 1 10 30 60 db).1.windows judge_run ≡ false
open_window_hides_example = open_window_hides 1 10 limits 30 60 500 db judge_run refl refl

-- Without its pending run the window of the digest closes.
abbrev flushed_db : Db
flushed_db = record db { runs = judge_run ∷ [] }

close_lem : close_if_drained 1 11 flushed_db ≡ (true, (close_if_drained 1 11 flushed_db).1)
unfolding close_if_drained exists
close_lem = refl

close_if_drained-true_example :
    (exists (is_due_own 1 11 500) (close_if_drained 1 11 flushed_db).1.windows ≡ false)
    × ((exists (is_window 1 11) flushed_db.windows ≡ false)
        ⊎ (exists (is_pending_of 1 11) flushed_db.runs ≡ false))
close_if_drained-true_example = close_if_drained-true 1 11 500 flushed_db _ close_lem

keep_lem : close_if_drained 1 11 db ≡ (false, db)
unfolding close_if_drained exists
keep_lem = refl

next_lem : next_in_chain 1 judge db ≡ some notify
unfolding next_in_chain adjacent select order_by insert_by
next_lem = refl

next_in_chain-IsSuccessor_example : IsSuccessor 1 judge db notify
next_in_chain-IsSuccessor_example = next_in_chain-IsSuccessor 1 judge notify db next_lem

tail_lem : next_in_chain 1 notify db ≡ none
unfolding next_in_chain adjacent select order_by insert_by
tail_lem = refl

prev_lem : prev_in_chain 1 notify db ≡ some judge
unfolding prev_in_chain adjacent select order_by insert_by
prev_lem = refl

prev-next_in_chain_example :
    (prv : Action) × (prev_in_chain 1 notify db ≡ some prv) × (prv.rank ≡ judge.rank)
prev-next_in_chain_example = prev-next_in_chain 1 judge notify db (inr (inl refl)) refl next_lem

-- The judge's run goes on to the digest.
abbrev advanced : Option Db
advanced = enqueue_next_batch (judge_run ∷ []) judge 60 db

abbrev or_db : Option Db → Db
or_db none = db
or_db (some d) = d

advanced_lem : advanced ≡ some (or_db advanced)
unfolding enqueue_next_batch enqueue_successor schedule next_in_chain adjacent select order_by
    insert_by
advanced_lem = refl

enqueue_next_batch-AllHave_example : AllHave 1 11 (or_db advanced) (judge_run ∷ [])
enqueue_next_batch-AllHave_example =
    enqueue_next_batch-AllHave judge_run [] judge notify 60 db (or_db advanced) next_lem
      advanced_lem

-- A drain of the judge's run.
abbrev claimed_run : Run
claimed_run = record judge_run { state = running; started_at = some 60; attempts = 1 }

abbrev running_db : Db
running_db = (claim_one limits 60 judge_run db).1

abbrev drained_db : Db
drained_db = (drain limits deployment claimed_run 61 running_db).1

resolve_lem : (resolve deployment claimed_run running_db).0 ≡ some judge
unfolding resolve resolve_action resolve_item run_impl ran enforce_result_schema get_action find
    claim_one is_claim_of exists update
resolve_lem = refl

drained_lem : drain limits deployment claimed_run 61 running_db ≡ (finished success, drained_db)
unfolding drain resolve resolve_action resolve_item run_impl ran enforce_result_schema get_action
    find claim_one is_claim_of exists update audit commit complete completion_ts advance
    enqueue_next enqueue_next_batch enqueue_successor schedule next_in_chain adjacent select
    order_by insert_by
drained_lem = refl

running_next_lem : next_in_chain 1 judge running_db ≡ some notify
unfolding next_in_chain adjacent select order_by insert_by claim_one is_claim_of exists update
running_next_lem = refl

drain_success_advances_example : has_run 1 2 11 100 drained_db ≡ true
drain_success_advances_example =
    drain_success_advances limits deployment claimed_run 61 running_db drained_db success judge
      notify drained_lem resolve_lem running_next_lem refl

-- A deployment whose kinds have no executor.
abbrev bare : Registry
bare = record { executor = λ kind. none; conforms = λ kind result. true }

abbrev bare_db : Db
bare_db = (drain limits bare claimed_run 61 running_db).1

bare_lem :
    drain limits bare claimed_run 61 running_db
    ≡ (finished (settled errored Message.no_executor), bare_db)
unfolding drain resolve resolve_action resolve_item run_impl ran enforce_result_schema get_action
    find claim_one is_claim_of exists update audit commit complete completion_ts advance
bare_lem = refl

drain_stops_example :
    (settled errored Message.no_executor ≡ (resolve bare claimed_run running_db).1)
    × (length bare_db.runs ≡ length running_db.runs)
drain_stops_example = drain_stops limits bare claimed_run 61 running_db bare_db _ bare_lem refl

-- Against the tables where the run was never claimed, its completion is lost.
abbrev lost_db : Db
lost_db = (drain limits deployment claimed_run 61 db).1

lost_lem : drain limits deployment claimed_run 61 db ≡ (claim_lost, lost_db)
unfolding drain resolve resolve_action resolve_item run_impl ran enforce_result_schema get_action
    find exists update audit commit complete completion_ts
lost_lem = refl

drain_without_result_example : lost_db.runs ≡ db.runs
drain_without_result_example =
    drain_without_result limits deployment claimed_run 61 db claim_lost lost_db lost_lem (inl refl)

drain-IsSound_example : IsSound limits lost_db
drain-IsSound_example =
    drain-IsSound deployment deployment-AllRest limits (omega arith) claimed_run 61 db db-IsSound

flush-IsSound_example : IsSound limits (flush limits deployment window 61 5 none db).1
flush-IsSound_example =
    flush-IsSound limits deployment deployment-AllRest (omega arith) window 61 5 none db db-IsSound

-- The scan of the feed, whose newest item is 101.
abbrev scanned : Option (Progress × Db)
scanned = scan_window watched judge at_once 60 subscription 101 no_progress db

abbrev or_pass : Option (Progress × Db) → Progress × Db
or_pass none = (no_progress, db)
or_pass (some p) = p

flush_terminates_example : (flush limits deployment window 61 2 none db).0 ≢ out_of_fuel
flush_terminates_example =
    flush_terminates limits deployment window 61 deployment-AllRest 2 none db
      (unfold exists in (refl, (refl, tt)))
      (unfold digest_pending_count in unfold count in omega arith)
