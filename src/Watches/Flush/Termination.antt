-- ===== src/Watches/Flush/Termination.antt =====
-- The loop of `run` of apps/core/watches/operations/digest_flush.py: the number of PENDING runs after a
-- slice.
use openmagpie.Prelude.{
  ℕ, zero, suc, ◌<◌, ◌≡◌, ◌≢◌, refl, sym, subst, ap, ◌∙◌, true, false, not, Option, none, some,
  List, [], ◌∷◌, map, arith, ◌==◌, exists, All, Unique, Bool-cases, Option-cases, inl, inr,
}
use openmagpie.Watches.Enums.{RunState, pending, succeeded, failed, state_eq, digest}
use openmagpie.Watches.Model.{
  same_action, Settings, Run, Window, Action, Item, ActionResult, Db, Executor, Registry,
}
use openmagpie.Watches.Runs.Complete.{complete_batch, id_in, digest_pending_count}
use openmagpie.Watches.Windows.{close_if_drained}
use openmagpie.Watches.Chain.Order.{In}
use openmagpie.Watches.Drain.{build_run_inputs, enforce_result_schema, get_item}
use openmagpie.Watches.Drain.Sound.{Rests, AllRest}
use openmagpie.Watches.Flush.{
  Slice, Resolution, unresolved, resolved, window_bounds, pairs_of, gone_ids, complete_gone,
  fail_slice, advance_slice, complete_slice, settle_slice, emitted, emit, emit_pairs, flush_runs,
  flush_batch, flush_slice, out_of_fuel, after_slice, flush, or_last,
}
use openmagpie.Watches.Flush.Sound.{record_slice-IsAudit, enforce-Rests}
use openmagpie.Watches.Flush.Fading.{pending_count, Fades-drop}
use openmagpie.Watches.Flush.Later.{
  IsLater, close-actions, close-runs, complete_batch-IsLater, complete_batch_clears, IsLater-trans,
  complete_gone-IsLater, IsAudit-IsLater,
}
use openmagpie.Watches.Flush.Resolved.{Finds, resolve_digest-Finds}
use openmagpie.Watches.Flush.Counting.{
  Owed, AllOwed, digest_batch-AllOwed, enqueue_next_batch-count,
}

module _ (settings : Settings) (registry : Registry) (window : Window) (now : ℕ) where
  abbrev left : Db → ℕ
  left db = pending_count window.account_id window.action_id db.runs

  abbrev IsOwed : Db → Run → Type 0
  IsOwed db r = Owed settings window.account_id window.action_id db.runs r

  -- The slice stops the loop or leaves fewer pending runs.
  abbrev Moves : Db → Slice → Type 0
  Moves old (none, db) = Unit
  Moves old (some slice, db) = slice.more ≡ true → (left db < left old) × (db.actions ≡ old.actions)

  advance_slice-count :
      (run : Run) (runs : List Run) (action : Action) (state : RunState) (db db' : Db)
      → run.account_id ≡ window.account_id
      → action.id ≡ window.action_id
      → Unique same_action db.actions
      → In action db.actions
      → advance_slice settings registry window now (run ∷ runs) action state db ≡ some db'
      → (left db' ≡ left db) × (db'.actions ≡ db.actions)
  unfolding advance_slice
  advance_slice-count run runs action state db db' a own u i e =
      elim (Bool-cases (state_eq state succeeded)) [
        | inr off ↦
            let same : db ≡ db' = ground arith in
            (ap left (sym same), ap (λ (d : Db). d.actions) (sym same))
        | inl on ↦
            let (n, acts) = enqueue_next_batch-count run runs action now db db' u i (rw on at e) in
            (
              subst
                  (λ x.
                    pending_count window.account_id x db'.runs
                    ≡ pending_count window.account_id x db.runs)
                  own
                  (subst
                    (λ x. pending_count x action.id db'.runs ≡ pending_count x action.id db.runs) a
                    n),
              acts,
            )
      ]

  complete_slice-Moves :
      (run : Run) (runs : List Run) (action : Action) (result : ActionResult)
      (delivery_id total : ℕ) (old db : Db)
      → IsLater old db
      → IsOwed old run
      → Unique same_action old.actions
      → In action old.actions
      → action.id ≡ window.action_id
      → state_eq result.state pending ≡ false
      → Moves old (
          complete_slice settings registry window now
            (run ∷ runs)
            action
            result
            delivery_id
            total
            db)
  unfolding complete_slice
  complete_slice-Moves run runs action result delivery_id total old db later owed u i own done =
      let a = window.account_id in
      let ids = map (λ (r : Run). r.id) (run ∷ runs) in
      let c =
        (complete_batch a ids result.state result.result result.error delivery_id action.kind now
          db).1 in
      let is_later = IsLater-trans later (
        complete_batch-IsLater result.state result.result result.error delivery_id action.kind now
          done a ids db) in
      let fewer : left c < left old =
        Fades-drop a window.action_id run.id old.runs c.runs is_later.fades owed.1 (
          complete_batch_clears result.state result.result result.error delivery_id action.kind now
            done a window.action_id run.id ids db
            (unfold id_in in unfold exists in ground arith)) in
      elim (Option-cases
        (advance_slice settings registry window now (run ∷ runs) action result.state c)) [
          | inl broken ↦ rw (broken, complete_slice) tt
          | inr (advanced, ok) ↦
              let (n, acts) =
                advance_slice-count run runs action result.state c advanced (ground (arith, owed.0))
                  own (subst (Unique same_action) (sym is_later.actions) u)
                  (subst (In action) (sym is_later.actions) i) ok in
              let closed = close_if_drained a window.action_id advanced in
              rw (ok, complete_slice)
                (λ more. (
                  subst (λ k. k < left old)
                      (sym (
                        ap (pending_count a window.action_id)
                          (close-runs a window.action_id advanced)
                        ∙ n))
                      fewer,
                  close-actions a window.action_id advanced ∙ acts ∙ is_later.actions,
                ))
        ]

  settle_slice-Moves :
      (run : Run) (runs : List Run) (action : Action) (result : ActionResult) (gone total : ℕ)
      (old db : Db)
      → IsLater old db
      → IsOwed old run
      → Unique same_action old.actions
      → In action old.actions
      → action.id ≡ window.action_id
      → state_eq result.state pending ≡ false
      → Moves old (settle_slice settings registry window now run runs action result gone total db)
  unfolding settle_slice fail_slice
  settle_slice-Moves run runs action result gone total old db later owed u i own done =
      let audit = record_slice-IsAudit window.account_id window.action_id run runs result now db in
      elim (Bool-cases (state_eq result.state failed)) [
        | inl f ↦ rw f (λ more. absurd (ground arith))
        | inr f ↦ rw f (
            complete_slice-Moves run runs action result _ total old _
              (IsLater-trans later (IsAudit-IsLater audit)) owed u i own done)
      ]

  module _ (rests : AllRest registry) where
    emitted-Moves :
        (run : Run) (runs : List Run) (action : Action) (o : Option ActionResult) (gone total : ℕ)
        (old db : Db)
        → ((result : ActionResult) → o ≡ some result → Rests result.state)
        → IsLater old db
        → IsOwed old run
        → Unique same_action old.actions
        → In action old.actions
        → action.id ≡ window.action_id
        → Moves old (emitted settings registry window now run runs action o gone total db)
    unfolding emitted fail_slice
    emitted-Moves run runs action none gone total old db h later owed u i own =
        λ more. absurd (ground arith)
    emitted-Moves run runs action (some result) gone total old db h later owed u i own =
        settle_slice-Moves run runs action (enforce_result_schema registry action.kind result) gone
          total old db later owed u i own
          (ground (arith, enforce-Rests registry action.kind result (h result refl)))

    emit-Moves :
        (run : Run) (runs : List Run) (items : List Item) (action : Action) (impl : Executor)
        (gone total : ℕ) (old db : Db)
        → registry.executor action.kind ≡ some impl
        → IsLater old db
        → IsOwed old run
        → Unique same_action old.actions
        → In action old.actions
        → action.id ≡ window.action_id
        → Moves old (emit settings registry window now run runs items action impl gone total db)
    unfolding emit
    emit-Moves run runs items action impl gone total old db e later owed u i own =
        elim (Bool-cases (exists (λ (r : Run). not (r.watch_id == run.watch_id)) runs)) [
          | inl mixed ↦ rw mixed tt
          | inr one ↦ rw one (elim (Option-cases (window_bounds window.close_at action.config)) [
            | inl overflow ↦ rw overflow tt
            | inr ((since, until), ok) ↦
                let (batch, context) = build_run_inputs items run.watch_id digest since until db in
                rw ok (
                  emitted-Moves run runs action (impl action batch context) gone total old db
                    (λ result r. rests action.kind impl action batch context result e r) later owed
                    u i own)
          ])
        ]

    emit_pairs-Moves :
        (pairs : List (Run × Item)) (action : Action) (impl : Executor) (gone total : ℕ)
        (old db : Db)
        → registry.executor action.kind ≡ some impl
        → IsLater old db
        → All (λ (p : Run × Item). IsOwed old p.0) pairs
        → Unique same_action old.actions
        → In action old.actions
        → action.id ≡ window.action_id
        → Moves old (emit_pairs settings registry window now pairs action impl gone total db)
    unfolding emit_pairs
    emit_pairs-Moves [] action impl gone total old db e later owed u i own =
        λ more. absurd (ground arith)
    emit_pairs-Moves ((run, item) ∷ pairs) action impl gone total old db e later owed u i own =
        emit-Moves run (map (λ p. p.0) pairs) (item ∷ map (λ p. p.1) pairs) action impl gone total
          old db e later owed.0 u i own

    pairs_of-Owed :
        (db : Db) (runs : List Run) (old : Db)
        → AllOwed settings window.account_id window.action_id old runs
        → All (λ (p : Run × Item). IsOwed old p.0) (pairs_of window.account_id db runs)
    unfolding pairs_of
    pairs_of-Owed db [] old h = tt
    pairs_of-Owed db (run ∷ runs) old h =
        elim (Option-cases (get_item window.account_id run.feed_item_id db)) [
          | inl gone ↦ rw (gone, pairs_of) (pairs_of-Owed db runs old h.1)
          | inr (item, ok) ↦ rw (ok, pairs_of) (h.0, pairs_of-Owed db runs old h.1)
        ]

    flush_runs-Moves :
        (runs : List Run) (resolution : Resolution) (db : Db)
        → Finds registry window db resolution
        → AllOwed settings window.account_id window.action_id db runs
        → Unique same_action db.actions
        → Moves db (flush_runs settings registry window now runs resolution db)
    unfolding flush_runs
    flush_runs-Moves runs (unresolved error) db f owed u = λ more. absurd (ground arith)
    flush_runs-Moves runs (resolved action impl) db f owed u =
        emit_pairs-Moves (pairs_of window.account_id db runs) action impl _ _ db
          (complete_gone window.account_id (gone_ids window.account_id db runs) now db) f.0
          (complete_gone-IsLater window.account_id (gone_ids window.account_id db runs) now db)
          (pairs_of-Owed db runs db owed) u f.1 f.2

    flush_batch-Moves :
        (runs : List Run) (db : Db)
        → AllOwed settings window.account_id window.action_id db runs
        → Unique same_action db.actions
        → Moves db (flush_batch settings registry window now runs db)
    unfolding flush_batch
    flush_batch-Moves [] db owed u = λ more. absurd (ground arith)
    flush_batch-Moves (run ∷ runs) db owed u =
        flush_runs-Moves (run ∷ runs) _ db (resolve_digest-Finds registry window db _ refl) owed u

    flush_slice-Moves :
        (db : Db)
        → Unique same_action db.actions
        → Moves db (flush_slice settings registry window now db)
    unfolding flush_slice
    flush_slice-Moves db u =
        flush_batch-Moves _ db (digest_batch-AllOwed settings window.account_id window.action_id db)
          u

    after_slice-returns :
        (fuel : ℕ) (last : Option ActionResult) (old : Db) (slice : Slice)
        → left old < suc fuel
        → Moves old slice
        → ((last : Option ActionResult) (db : Db)
            → left db < fuel
            → db.actions ≡ old.actions
            → (flush settings registry window now fuel last db).0 ≢ out_of_fuel)
        → (after_slice (flush settings registry window now fuel) last slice).0 ≢ out_of_fuel
    unfolding after_slice
    after_slice-returns fuel last old (none, db) h m rest = ground arith
    after_slice-returns fuel last old (some slice, db) h m rest = elim (Bool-cases slice.more) [
      | inr over ↦ rw over (ground arith)
      | inl more ↦
          let (fewer, acts) = m more in
          rw more (rest (or_last slice.outcome last) db (omega (arith, fewer, h)) acts)
    ]

    -- When every impl returns an outcome and no two actions have one id, a flush whose fuel is
    -- greater than the number of the action's PENDING runs does not run out of fuel.
    pub flush_terminates :
        (fuel : ℕ) (last : Option ActionResult) (db : Db)
        → Unique same_action db.actions
        → digest_pending_count window.account_id window.action_id db < fuel
        → (flush settings registry window now fuel last db).0 ≢ out_of_fuel
    unfolding flush digest_pending_count
    flush_terminates zero last db u h = absurd (omega (arith, h))
    flush_terminates (suc fuel) last db u h =
        after_slice-returns fuel last db _ h (flush_slice-Moves db u) (λ next db' less acts.
          flush_terminates fuel next db' (subst (Unique same_action) (sym acts) u) less)
