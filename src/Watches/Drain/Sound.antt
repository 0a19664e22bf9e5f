-- ===== src/Watches/Drain/Sound.antt =====
-- The invariant of the run table under apps/core/watches/operations/drain.py.
use openmagpie.Prelude.{
  ℕ, ◌≡◌, ◌≢◌, ◌<◌, refl, Option, none, some, List, [], ◌∷◌, arith, Bool-cases, Option-cases, inl,
  inr,
}
use openmagpie.Watches.Enums.{RunState, pending, running, succeeded, state_eq, instant}
use openmagpie.Watches.Model.{
  Settings, Run, Action, Item, ActionItem, Context, ActionResult, Db, Executor, Registry,
}
use openmagpie.Watches.Runs.Complete.{Completion, out_of_scope, lost, won}
use openmagpie.Watches.Runs.Sound.{IsSound}
use openmagpie.Watches.Runs.Sound.Claims.{complete-IsSound}
use openmagpie.Watches.Advance.{enqueue_next}
use openmagpie.Watches.Advance.Effects.{enqueue_next_batch-IsSound}
use openmagpie.Watches.Drain.{
  ran, run_impl, resolve_item, resolve_action, resolve, advance, commit, drain, build_run_inputs,
}
use openmagpie.Watches.Drain.Outcome.{audit-IsAudit, IsAudit-IsSound}

-- An outcome: neither queued nor running.
abbrev pub Rests : RunState → Type 0
Rests state = (state ≢ pending) × (state ≢ running)

-- The protocol of the action impls: what one returns is an outcome.
abbrev pub AllRest : Registry → Type 0
AllRest registry =
    (kind : ℕ) (impl : Executor) (action : Action) (items : List ActionItem) (context : Context)
    (result : ActionResult)
    → registry.executor kind ≡ some impl
    → impl action items context ≡ some result
    → Rests result.state

module _ (registry : Registry) (rests : AllRest registry) where
  ran-Rests :
      (kind : ℕ) (o : Option ActionResult)
      → ((result : ActionResult) → o ≡ some result → Rests result.state)
      → Rests (ran registry kind o).state
  unfolding ran
  ran-Rests kind none h = ground arith
  ran-Rests kind (some result) h = ground (arith, h result refl)

  run_impl-Rests :
      (run : Run) (action : Action) (item : Item) (o : Option Executor) (db : Db)
      → registry.executor action.kind ≡ o
      → Rests (run_impl registry run action item o db).state
  unfolding run_impl
  run_impl-Rests run action item none db e = ground arith
  run_impl-Rests run action item (some impl) db e =
      let (items, context) = build_run_inputs (item ∷ []) run.watch_id instant none none db in
      ran-Rests action.kind (impl action items context)
        (λ result r. rests action.kind impl action items context result e r)

  resolve_item-Rests :
      (run : Run) (action : Action) (o : Option Item) (db : Db)
      → Rests (resolve_item registry run action o db).1.state
  unfolding resolve_item
  resolve_item-Rests run action none db = ground arith
  resolve_item-Rests run action (some item) db = run_impl-Rests run action item _ db refl

  resolve_action-Rests :
      (run : Run) (o : Option Action) (db : Db) → Rests (resolve_action registry run o db).1.state
  unfolding resolve_action
  resolve_action-Rests run none db = ground arith
  resolve_action-Rests run (some action) db = resolve_item-Rests run action _ db

  resolve-Rests : (run : Run) (db : Db) → Rests (resolve registry run db).1.state
  unfolding resolve
  resolve-Rests run db = resolve_action-Rests run _ db

  module _ (settings : Settings) (open_cap : 0 < settings.run_max_attempts) where
    advance-IsSound :
        (run : Run) (action : Option Action) (result : ActionResult) (now : ℕ) (before after : Db)
        → IsSound settings before
        → IsSound settings after
        → IsSound settings (advance run action result now before after).1
    unfolding advance
    advance-IsSound run none result now before after b a = a
    advance-IsSound run (some action) result now before after b a =
        elim (Bool-cases (state_eq result.state succeeded)) [
          | inr stopped ↦ rw stopped a
          | inl on ↦ rw on (elim (Option-cases (enqueue_next run action now after)) [
            | inl broken ↦ rw (broken, advance) b
            | inr (db, ok) ↦
                rw (ok, advance)
                  (unfold enqueue_next in
                    enqueue_next_batch-IsSound settings open_cap (run ∷ []) action now after db ok
                      a)
          ])
        ]

    commit-IsSound :
        (run : Run) (action : Option Action) (result : ActionResult) (now : ℕ) (before : Db)
        (c : Completion × Db)
        → IsSound settings before
        → IsSound settings c.1
        → IsSound settings (commit run action result now before c).1
    unfolding commit
    commit-IsSound run action result now before (out_of_scope, after) b a = b
    commit-IsSound run action result now before (lost, after) b a = a
    commit-IsSound run action result now before (won row, after) b a =
        advance-IsSound row action result now before after b a

    -- When the cap on attempts is positive and every impl returns an outcome (neither PENDING nor
    -- RUNNING), a drain keeps the invariant of the run table, whether it finishes, loses its claim
    -- or raises.
    pub drain-IsSound :
        (run : Run) (now : ℕ) (db : Db)
        → IsSound settings db
        → IsSound settings (drain settings registry run now db).1
    unfolding drain
    drain-IsSound run now db s =
        let (action, result) = resolve registry run db in
        let (p, q) = resolve-Rests run db in
        let a = IsAudit-IsSound settings (audit-IsAudit run result now db) s in
        commit-IsSound run action result now _ _ a (
          complete-IsSound settings run.account_id run result.state result.result result.error _ _
            now _ p q a)
