-- ===== src/Watches/Flush/Sound.antt =====
-- The invariant of the run table under apps/core/watches/operations/digest_flush.py.
use openmagpie.Prelude.{
  ℕ, zero, suc, ◌≡◌, ◌<◌, refl, subst, true, false, not, Option, none, some, List, [], ◌∷◌, map,
  arith, ◌==◌, exists, Bool-cases, Option-cases, inl, inr,
}
use openmagpie.Watches.Enums.{RunState, succeeded, failed, errored, state_eq, is_terminal, digest}
use openmagpie.Watches.Model.{
  Settings, Run, Window, Action, Item, ActionResult, Db, Executor, Registry,
}
use openmagpie.Watches.Runs.Complete.{complete_batch}
use openmagpie.Watches.Runs.Sound.{IsSound}
use openmagpie.Watches.Runs.Sound.Batches.{complete_batch-IsSound, fail_batch-IsSound}
use openmagpie.Watches.Windows.{close_if_drained}
use openmagpie.Watches.Advance.Effects.{SameRuns, SameRuns-IsSound, enqueue_next_batch-IsSound}
use openmagpie.Watches.Deliveries.{record_delivery}
use openmagpie.Watches.Drain.{build_run_inputs, enforce_result_schema}
use openmagpie.Watches.Drain.Outcome.{IsAudit, IsAudit-IsSound}
use openmagpie.Watches.Drain.Sound.{Rests, AllRest}
use openmagpie.Watches.Flush.{
  Slice, Resolution, unresolved, resolved, resolve_impl, resolve_digest, window_bounds, pairs_of,
  gone_ids, complete_gone, record_slice, close, fail_slice, advance_slice, complete_slice,
  settle_slice, emitted, emit, emit_pairs, flush_runs, flush_batch, flush_slice, Flushed,
  after_slice, flush, or_last,
}

close_if_drained-SameRuns :
    (account_id action_id : ℕ) (db : Db) → SameRuns (close_if_drained account_id action_id db).1 db
unfolding close_if_drained
close_if_drained-SameRuns a c db = record { runs = ground arith; next_id = ground arith }

pub record_slice-IsAudit :
    (account_id action_id : ℕ) (run : Run) (runs : List Run) (result : ActionResult) (now : ℕ)
    (db : Db)
    → IsAudit db (record_slice account_id action_id run runs result now db).1
unfolding record_slice record_delivery
record_slice-IsAudit a c run runs result now db = record {
  runs = ground arith;
  actions = ground arith;
  next_id = ground arith;
}

-- An outcome that is not a transient failure is terminal.
Rests-is_terminal :
    (state : RunState) → Rests state → state_eq state failed ≡ false → is_terminal state ≡ true
Rests-is_terminal state r f = ground arith

pub enforce-Rests :
    (registry : Registry) (kind : ℕ) (result : ActionResult)
    → Rests result.state
    → Rests (enforce_result_schema registry kind result).state
unfolding enforce_result_schema
enforce-Rests registry kind result r = ground arith

module _ (settings : Settings) (registry : Registry) (rests : AllRest registry)
    (open_cap : 0 < settings.run_max_attempts) (window : Window) (now : ℕ) where
  close-IsSound :
      (db : Db) → IsSound settings db → IsSound settings (close settings registry window now db)
  close-IsSound db s =
      SameRuns-IsSound settings (close_if_drained-SameRuns window.account_id window.action_id db) s

  complete_gone-IsSound :
      (ids : List ℕ) (db : Db)
      → IsSound settings db
      → IsSound settings (complete_gone window.account_id ids now db)
  unfolding complete_gone
  complete_gone-IsSound [] db s = s
  complete_gone-IsSound (id ∷ ids) db s =
      complete_batch-IsSound settings window.account_id (id ∷ ids) errored 0 _ 0 0 now db refl s

  fail_slice-IsSound :
      (runs : List Run) (gone : ℕ) (db : Db)
      → IsSound settings db
      → IsSound settings (fail_slice settings registry window now runs gone db).1
  unfolding fail_slice
  fail_slice-IsSound runs gone db s =
      close-IsSound _
        (fail_batch-IsSound settings window.account_id (map (λ r. r.id) runs) now db s)

  advance_slice-IsSound :
      (runs : List Run) (action : Action) (state : RunState) (db db' : Db)
      → advance_slice settings registry window now runs action state db ≡ some db'
      → IsSound settings db
      → IsSound settings db'
  unfolding advance_slice
  advance_slice-IsSound runs action state db db' e s =
      elim (Bool-cases (state_eq state succeeded)) [
        | inl on ↦
            enqueue_next_batch-IsSound settings open_cap runs action now db db' (rw on at e) s
        | inr off ↦ let same : db ≡ db' = ground arith in subst (IsSound settings) same s
      ]

  complete_slice-IsSound :
      (runs : List Run) (action : Action) (result : ActionResult) (delivery_id total : ℕ) (db : Db)
      → is_terminal result.state ≡ true
      → IsSound settings db
      → IsSound settings
          (complete_slice settings registry window now runs action result delivery_id total db).1
  unfolding complete_slice
  complete_slice-IsSound runs action result delivery_id total db t s =
      let c =
        complete_batch window.account_id (map (λ r. r.id) runs) result.state result.result
          result.error delivery_id action.kind now db in
      let sound =
        complete_batch-IsSound settings window.account_id (map (λ r. r.id) runs) result.state
          result.result result.error delivery_id action.kind now db t s in
      elim (Option-cases
        (advance_slice settings registry window now runs action result.state c.1)) [
          | inl broken ↦ rw (broken, complete_slice) s
          | inr (advanced, ok) ↦
              rw (ok, complete_slice)
                (close-IsSound advanced
                  (advance_slice-IsSound runs action result.state c.1 advanced ok sound))
        ]

  settle_slice-IsSound :
      (run : Run) (runs : List Run) (action : Action) (result : ActionResult) (gone total : ℕ)
      (db : Db)
      → Rests result.state
      → IsSound settings db
      → IsSound settings
          (settle_slice settings registry window now run runs action result gone total db).1
  unfolding settle_slice
  settle_slice-IsSound run runs action result gone total db r s =
      let recorded =
        IsAudit-IsSound settings
          (record_slice-IsAudit window.account_id window.action_id run runs result now db) s in
      elim (Bool-cases (state_eq result.state failed)) [
        | inl f ↦ rw f (fail_slice-IsSound (run ∷ runs) gone _ recorded)
        | inr f ↦ rw f (
            complete_slice-IsSound (run ∷ runs) action result _ total _
              (Rests-is_terminal result.state r f) recorded)
      ]

  emitted-IsSound :
      (run : Run) (runs : List Run) (action : Action) (o : Option ActionResult) (gone total : ℕ)
      (db : Db)
      → ((result : ActionResult) → o ≡ some result → Rests result.state)
      → IsSound settings db
      → IsSound settings (emitted settings registry window now run runs action o gone total db).1
  unfolding emitted
  emitted-IsSound run runs action none gone total db h s = fail_slice-IsSound (run ∷ runs) gone db s
  emitted-IsSound run runs action (some result) gone total db h s =
      settle_slice-IsSound run runs action _ gone total db
        (enforce-Rests registry action.kind result (h result refl)) s

  emit-IsSound :
      (run : Run) (runs : List Run) (items : List Item) (action : Action) (impl : Executor)
      (gone total : ℕ) (db : Db)
      → registry.executor action.kind ≡ some impl
      → IsSound settings db
      → IsSound settings
          (emit settings registry window now run runs items action impl gone total db).1
  unfolding emit
  emit-IsSound run runs items action impl gone total db e s =
      elim (Bool-cases (exists (λ (r : Run). not (r.watch_id == run.watch_id)) runs)) [
        | inl mixed ↦ rw mixed s
        | inr one ↦ rw one (elim (Option-cases (window_bounds window.close_at action.config)) [
          | inl overflow ↦ rw overflow s
          | inr ((since, until), ok) ↦
              let (batch, context) = build_run_inputs items run.watch_id digest since until db in
              rw ok (
                emitted-IsSound run runs action (impl action batch context) gone total db
                  (λ result r. rests action.kind impl action batch context result e r) s)
        ])
      ]

  emit_pairs-IsSound :
      (pairs : List (Run × Item)) (action : Action) (impl : Executor) (gone total : ℕ) (db : Db)
      → registry.executor action.kind ≡ some impl
      → IsSound settings db
      → IsSound settings (emit_pairs settings registry window now pairs action impl gone total db).1
  unfolding emit_pairs
  emit_pairs-IsSound [] action impl gone total db e s = close-IsSound db s
  emit_pairs-IsSound ((run, item) ∷ pairs) action impl gone total db e s =
      emit-IsSound run (map (λ p. p.0) pairs) (item ∷ map (λ p. p.1) pairs) action impl gone total
        db e s

  -- What the resolution found is the registry's executor.
  abbrev pub Resolves : Resolution → Type 0
  Resolves (unresolved error) = Unit
  Resolves (resolved action impl) = registry.executor action.kind ≡ some impl

  resolve_impl-Resolves :
      (action : Action) (o : Option Executor)
      → registry.executor action.kind ≡ o
      → Resolves (resolve_impl action o)
  unfolding resolve_impl
  resolve_impl-Resolves action none e = tt
  resolve_impl-Resolves action (some impl) e = e

  resolve_digest-Resolves : (o : Option Action) → Resolves (resolve_digest registry o)
  unfolding resolve_digest
  resolve_digest-Resolves none = tt
  resolve_digest-Resolves (some action) = resolve_impl-Resolves action _ refl

  flush_runs-IsSound :
      (runs : List Run) (resolution : Resolution) (db : Db)
      → Resolves resolution
      → IsSound settings db
      → IsSound settings (flush_runs settings registry window now runs resolution db).1
  unfolding flush_runs
  flush_runs-IsSound runs (unresolved error) db e s =
      close-IsSound _
        (complete_batch-IsSound settings window.account_id _ errored 0 error 0 0 now db refl s)
  flush_runs-IsSound runs (resolved action impl) db e s =
      emit_pairs-IsSound (pairs_of window.account_id db runs) action impl _ _ _ e
        (complete_gone-IsSound (gone_ids window.account_id db runs) db s)

  flush_batch-IsSound :
      (runs : List Run) (db : Db)
      → IsSound settings db
      → IsSound settings (flush_batch settings registry window now runs db).1
  unfolding flush_batch
  flush_batch-IsSound [] db s = close-IsSound db s
  flush_batch-IsSound (run ∷ runs) db s =
      flush_runs-IsSound (run ∷ runs) _ db (resolve_digest-Resolves _) s

  flush_slice-IsSound :
      (db : Db)
      → IsSound settings db
      → IsSound settings (flush_slice settings registry window now db).1
  unfolding flush_slice
  flush_slice-IsSound db s = flush_batch-IsSound _ db s

  after_slice-IsSound :
      (rest : Option ActionResult → Db → Flushed × Db)
      → ((last : Option ActionResult) (db : Db)
          → IsSound settings db
          → IsSound settings (rest last db).1)
      → (last : Option ActionResult) (slice : Slice) → IsSound settings slice.1
      → IsSound settings (after_slice rest last slice).1
  unfolding after_slice
  after_slice-IsSound rest h last (none, db) s = s
  after_slice-IsSound rest h last (some slice, db) s = elim (Bool-cases slice.more) [
    | inl more ↦ rw more (h (or_last slice.outcome last) db s)
    | inr over ↦ rw over s
  ]

  -- When the cap on attempts is positive and every impl returns an outcome (neither PENDING nor
  -- RUNNING), a flush of any number of slices keeps the invariant of the run table, also when it
  -- raises.
  pub flush-IsSound :
      (fuel : ℕ) (last : Option ActionResult) (db : Db)
      → IsSound settings db
      → IsSound settings (flush settings registry window now fuel last db).1
  unfolding flush
  flush-IsSound zero last db s = s
  flush-IsSound (suc fuel) last db s =
      after_slice-IsSound (flush settings registry window now fuel) (flush-IsSound fuel) last _
        (flush_slice-IsSound db s)
