-- ===== src/Watches/Flush.antt =====
-- apps/core/watches/operations/digest_flush.py, with `get_many` of the feed items. The `emitted` and
-- `total` of `run` are for its log only. An exception is `none`; what was committed before it stays.
pub mod Sound
pub mod Fading
pub mod Counting
pub mod Later
pub mod Resolved
pub mod Termination
use openmagpie.Prelude.{
  ℕ, zero, suc, ◌+◌, ◌-◌, Bool, true, false, not, ◌&&◌, Option, none, some, List, [], ◌∷◌, map, ltb,
  ◌==◌, if◌then◌else◌, exists, length,
}
use openmagpie.Watches.Enums.{
  RunState, succeeded, failed, errored, Cadence, digest, Message, action_gone, item_gone,
  no_executor, transient, blank, state_eq,
}
use openmagpie.Watches.Model.{
  Settings, Run, Window, Action, Config, delivery, other, invalid, Item, ActionResult, Db, Executor,
  Registry,
}
use openmagpie.Watches.Runs.Complete.{complete_batch, digest_batch, fail_batch}
use openmagpie.Watches.Windows.{close_if_drained}
use openmagpie.Watches.Chain.{get_action}
use openmagpie.Watches.Advance.{enqueue_next_batch}
use openmagpie.Watches.Deliveries.{record_delivery}
use openmagpie.Watches.Drain.{settled, get_item, build_run_inputs, enforce_result_schema}

-- `_SliceResult`.
pub record SliceResult : Type 0 where
  pub outcome : Option ActionResult
  pub more : Bool
  pub count : ℕ

-- What a part of a slice comes to, where `none` is an exception.
abbrev pub Slice : Type 0
Slice = Option SliceResult × Db

abbrev pub stop : Option ActionResult → ℕ → SliceResult
stop outcome count = record { outcome = outcome; more = false; count = count }

-- `_resolve_action`: the action and its impl, or the error.
pub data Resolution : Type 0 where
  unresolved : Message → Resolution
  resolved : Action → Executor → Resolution

unfoldable pub resolve_impl : Action → Option Executor → Resolution
resolve_impl action none = unresolved no_executor
resolve_impl action (some impl) = resolved action impl

unfoldable pub resolve_digest : Registry → Option Action → Resolution
unfolding resolve_impl
resolve_digest registry none = unresolved action_gone
resolve_digest registry (some action) = resolve_impl action (registry.executor action.kind)

-- `_window_bounds`: since and until. A time before the first one is an `OverflowError`.
unfoldable pub window_bounds : Option ℕ → Config → Option (Option ℕ × Option ℕ)
window_bounds none config = some (none, none)
window_bounds (some close_at) (delivery cadence interval_seconds) =
    if interval_seconds == 0
    then some (none, some close_at)
    else if ltb close_at interval_seconds
    then none
    else some (some (close_at - interval_seconds), some close_at)
window_bounds (some close_at) (other blob) = some (none, some close_at)
window_bounds (some close_at) invalid = some (none, some close_at)

-- The runs whose items are there, and the ids of the other ones.
unfoldable pub pairs_of : (account_id : ℕ) → Db → List Run → List (Run × Item)
pairs_of account_id db [] = []
pairs_of account_id db (run ∷ runs) =
    let rest = pairs_of account_id db runs in
    elim (get_item account_id run.feed_item_id db) [ none ↦ rest | some item ↦ (run, item) ∷ rest ]

unfoldable pub gone_ids : (account_id : ℕ) → Db → List Run → List ℕ
gone_ids account_id db [] = []
gone_ids account_id db (run ∷ runs) =
    let rest = gone_ids account_id db runs in
    elim (get_item account_id run.feed_item_id db) [ none ↦ run.id ∷ rest | some item ↦ rest ]

-- `max(r.attempts for r in batch_runs)`, of a first run and the others.
unfoldable pub max_attempts : ℕ → List Run → ℕ
max_attempts most [] = most
max_attempts most (run ∷ runs) =
    max_attempts (if ltb most run.attempts then run.attempts else most) runs

-- The `id__in` write is skipped if no item is gone.
unfoldable pub complete_gone : (account_id : ℕ) (ids : List ℕ) (now : ℕ) → Db → Db
complete_gone account_id [] now db = db
complete_gone account_id (id ∷ ids) now db =
    (complete_batch account_id (id ∷ ids) errored 0 item_gone 0 0 now db).1

-- `_record`, of an outbound call; the blank id if there was none.
unfoldable pub record_slice :
    (account_id action_id : ℕ) → Run → List Run → ActionResult → (now : ℕ) → Db → ℕ × Db
unfolding max_attempts
record_slice account_id action_id run runs result now db = elim result.outbound [
  | none ↦ (0, db)
  | some call ↦
      record_delivery account_id run.watch_id action_id digest call result.state result.error
        (max_attempts run.attempts runs + 1) now db
]

module _ (settings : Settings) (registry : Registry) (window : Window) (now : ℕ) where
  -- `_close`.
  abbrev close : Db → Db
  close db = (close_if_drained window.account_id window.action_id db).1

  -- `_fail_slice`.
  unfoldable pub fail_slice : (batch_runs : List Run) (gone : ℕ) → Db → Slice
  fail_slice batch_runs gone db = (
    some (stop (some (settled failed transient)) gone),
    close (fail_batch settings window.account_id (map (λ r. r.id) batch_runs) now db).1,
  )

  -- The advance of a slice that succeeded.
  unfoldable pub advance_slice : (batch_runs : List Run) → Action → RunState → Db → Option Db
  advance_slice batch_runs action state db =
      if state_eq state succeeded then enqueue_next_batch batch_runs action now db else some db

  -- `_complete_slice`, a transaction: an exception rolls back to its start.
  unfoldable pub complete_slice :
      (batch_runs : List Run) → Action → ActionResult → (delivery_id total : ℕ) → Db → Slice
  unfolding advance_slice
  complete_slice batch_runs action result delivery_id total db =
      let completed =
        (complete_batch window.account_id (map (λ r. r.id) batch_runs) result.state result.result
          result.error delivery_id action.kind now db).1 in
      elim (advance_slice batch_runs action result.state completed) [
        | none ↦ (none, db)
        | some advanced ↦
            let (closed, db') = close_if_drained window.account_id window.action_id advanced in
            (some (record { outcome = some result; more = not closed; count = total }), db')
      ]

  -- What follows an emit that returned.
  unfoldable pub settle_slice :
      Run → List Run → Action → ActionResult → (gone total : ℕ) → Db → Slice
  unfolding record_slice fail_slice complete_slice
  settle_slice run runs action result gone total db =
      let (delivery_id, recorded) =
        record_slice window.account_id window.action_id run runs result now db in
      if state_eq result.state failed
      then fail_slice (run ∷ runs) gone recorded
      else complete_slice (run ∷ runs) action result delivery_id total recorded

  -- The outcome of the impl; an exception of it is a transient failure.
  unfoldable pub emitted :
      Run → List Run → Action → Option ActionResult → (gone total : ℕ) → Db → Slice
  unfolding settle_slice fail_slice enforce_result_schema
  emitted run runs action none gone total db = fail_slice (run ∷ runs) gone db
  emitted run runs action (some result) gone total db =
      settle_slice run runs action (enforce_result_schema registry action.kind result) gone total db

  unfoldable pub emit :
      Run → List Run → List Item → Action → Executor → (gone total : ℕ) → Db → Slice
  unfolding emitted window_bounds build_run_inputs
  emit run runs batch_items action impl gone total db =
      if exists (λ r. not (r.watch_id == run.watch_id)) runs
      then (none, db)
      else elim (window_bounds window.close_at action.config) [
        | none ↦ (none, db)
        | some (since, until) ↦
            let (items, context) =
              build_run_inputs batch_items run.watch_id digest since until db in
            emitted run runs action (impl action items context) gone total db
      ]

  unfoldable pub emit_pairs : List (Run × Item) → Action → Executor → (gone total : ℕ) → Db → Slice
  unfolding emit
  emit_pairs [] action impl gone total db =
      (some (stop (some (settled errored item_gone)) total), close db)
  emit_pairs ((run, item) ∷ pairs) action impl gone total db =
      emit run (map (λ p. p.0) pairs) (item ∷ map (λ p. p.1) pairs) action impl gone total db

  unfoldable pub flush_runs : List Run → Resolution → Db → Slice
  unfolding emit_pairs pairs_of gone_ids complete_gone
  flush_runs runs (unresolved error) db = (
    some (stop (some (settled errored error)) (length runs)),
    close (complete_batch window.account_id (map (λ r. r.id) runs) errored 0 error 0 0 now db).1,
  )
  flush_runs runs (resolved action impl) db =
      let gone = gone_ids window.account_id db runs in
      emit_pairs (pairs_of window.account_id db runs) action impl (length gone) (length runs)
        (complete_gone window.account_id gone now db)

  unfoldable pub flush_batch : List Run → Db → Slice
  unfolding flush_runs resolve_digest
  flush_batch [] db = (some (stop none 0), close db)
  flush_batch (run ∷ runs) db =
      flush_runs (run ∷ runs)
        (resolve_digest registry (get_action window.account_id window.action_id db)) db

  -- `_flush_slice`.
  unfoldable pub flush_slice : Db → Slice
  unfolding flush_batch
  flush_slice db = flush_batch (digest_batch settings window.account_id window.action_id db) db

-- What a flush comes to.
pub data Flushed : Type 0 where
  out_of_fuel raised : Flushed
  drained : Option ActionResult → Flushed

-- The last outcome so far.
abbrev pub or_last : Option ActionResult → Option ActionResult → Option ActionResult
or_last none last = last
or_last (some result) last = some result

-- The end of a turn of the loop of `run`, of which `rest` is the next turns.
unfoldable pub after_slice :
    (rest : Option ActionResult → Db → Flushed × Db) → Option ActionResult → Slice → Flushed × Db
after_slice rest last (none, db) = (raised, db)
after_slice rest last (some slice, db) = elim slice.more [
  | false ↦ (drained (or_last slice.outcome last), db)
  | true ↦ rest (or_last slice.outcome last) db
]

module _ (settings : Settings) (registry : Registry) (window : Window) (now : ℕ) where
  -- `run`, of at most `fuel` slices.
  unfoldable pub flush : (fuel : ℕ) → Option ActionResult → Db → Flushed × Db
  unfolding flush_slice after_slice
  flush zero last db = (out_of_fuel, db)
  flush (suc fuel) last db =
      after_slice (flush fuel) last (flush_slice settings registry window now db)
