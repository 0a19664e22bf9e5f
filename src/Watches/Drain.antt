-- ===== src/Watches/Drain.antt =====
-- apps/core/watches/operations/drain.py, with run_inputs.py and result_enforce.py beside it.
-- Telemetry, which `run` emits after its commit, is not modelled.
pub mod Outcome
pub mod Sound
use openmagpie.Prelude.{
  ℕ, Bool, true, false, not, ◌&&◌, Option, none, some, List, [], ◌∷◌, map, ◌==◌, if◌then◌else◌,
  find,
}
use openmagpie.Watches.Enums.{
  RunState, succeeded, failed, errored, Cadence, instant, Message, action_gone, item_gone,
  no_executor, transient, result_invalid, state_eq, blank,
}
use openmagpie.Watches.Model.{
  Settings, Run, Action, Item, ActionItem, Context, ActionResult, Db, Watch, Executor, Registry,
}
use openmagpie.Watches.Runs.Complete.{Completion, out_of_scope, lost, won, complete}
use openmagpie.Watches.Chain.{get_action}
use openmagpie.Watches.Advance.{enqueue_next}
use openmagpie.Watches.Deliveries.{record_delivery}

-- An `ActionResult` without a call.
abbrev pub settled : RunState → Message → ActionResult
settled state error = record { state = state; result = 0; error = error; outbound = none }

-- `_watch_name`: blank for a watch that is gone.
unfoldable pub watch_name : ℕ → Db → ℕ
watch_name watch_id db = elim (find (λ w. w.id == watch_id) db.watches) [
  | none ↦ 0
  | some w ↦ w.name
]

abbrev pub action_item : Item → ActionItem
action_item item = record {
  blob = item.blob;
  key = (item.source_kind, item.external_id);
  source_label = item.source_label;
  source_kind = item.source_kind;
  source_meta = item.source_meta;
}

-- `build_run_inputs`, on the items of the pairs.
unfoldable pub build_run_inputs :
    List Item → (watch_id : ℕ) → Cadence → (since until : Option ℕ) → Db → List ActionItem × Context
unfolding watch_name
build_run_inputs items watch_id cadence since until db = (
  map action_item items,
  record {
    watch_id = watch_id;
    watch_name = watch_name watch_id db;
    cadence = cadence;
    window_since = since;
    window_until = until;
  },
)

-- `feed_item_svc.get`.
abbrev pub get_item : (account_id item_id : ℕ) → Db → Option Item
get_item account_id item_id db = find (λ i. i.id == item_id && i.account_id == account_id) db.items

module _ (registry : Registry) where
  -- `enforce_result_schema`; the violating result and the call are kept.
  unfoldable pub enforce_result_schema : ℕ → ActionResult → ActionResult
  enforce_result_schema kind outcome =
      if state_eq outcome.state succeeded && not (registry.conforms kind outcome.result)
      then record outcome { state = errored; error = result_invalid }
      else outcome

  -- The outcome of the impl; an exception is a retryable failure.
  unfoldable pub ran : ℕ → Option ActionResult → ActionResult
  unfolding enforce_result_schema
  ran kind none = settled failed transient
  ran kind (some result) = enforce_result_schema kind result

  unfoldable pub run_impl : Run → Action → Item → Option Executor → Db → ActionResult
  unfolding ran build_run_inputs
  run_impl run action item none db = settled errored no_executor
  run_impl run action item (some impl) db =
      let (items, context) = build_run_inputs (item ∷ []) run.watch_id instant none none db in
      ran action.kind (impl action items context)

  unfoldable pub resolve_item : Run → Action → Option Item → Db → Option Action × ActionResult
  unfolding run_impl
  resolve_item run action none db = (some action, settled errored item_gone)
  resolve_item run action (some item) db =
      (some action, run_impl run action item (registry.executor action.kind) db)

  unfoldable pub resolve_action : Run → Option Action → Db → Option Action × ActionResult
  unfolding resolve_item
  resolve_action run none db = (none, settled errored action_gone)
  resolve_action run (some action) db =
      resolve_item run action (get_item run.account_id run.feed_item_id db) db

  -- `_resolve`.
  unfoldable pub resolve : Run → Db → Option Action × ActionResult
  unfolding resolve_action
  resolve run db = resolve_action run (get_action run.account_id run.action_id db) db

-- What a drain of one run comes to: its result, a lost claim, or an exception of the commit.
pub data Drained : Type 0 where
  finished : ActionResult → Drained
  claim_lost raised : Drained

-- The audit row of an outbound call, in a commit of its own; the blank id if there was no call.
unfoldable pub audit : Run → ActionResult → (now : ℕ) → Db → ℕ × Db
audit run result now db = elim result.outbound [
  | none ↦ (0, db)
  | some call ↦
      record_delivery run.account_id run.watch_id run.action_id instant call result.state
        result.error run.attempts now db
]

abbrev pub kind_of : Option Action → ℕ
kind_of none = 0
kind_of (some action) = action.kind

-- The advance, in the transaction of the completion; an exception rolls back to `before`.
unfoldable pub advance :
    Run → Option Action → ActionResult → (now : ℕ) → (before after : Db) → Drained × Db
advance run none result now before after = (finished result, after)
advance run (some action) result now before after =
    if state_eq result.state succeeded
    then elim (enqueue_next run action now after) [
      | none ↦ (raised, before)
      | some db ↦ (finished result, db)
    ]
    else (finished result, after)

unfoldable pub commit :
    Run → Option Action → ActionResult → (now : ℕ) → (before : Db) → Completion × Db → Drained × Db
unfolding advance
commit run action result now before (out_of_scope, after) = (raised, before)
commit run action result now before (lost, after) = (claim_lost, after)
commit run action result now before (won row, after) = advance row action result now before after

-- `WatchDrainOperation(run, now=now).run()`.
unfoldable pub drain : Settings → Registry → Run → (now : ℕ) → Db → Drained × Db
unfolding audit commit
drain settings registry run now db =
    let (action, result) = resolve registry run db in
    let (delivery_id, audited) = audit run result now db in
    commit run action result now audited (
      complete settings run.account_id run result.state result.result result.error delivery_id
        (kind_of action) now audited)
