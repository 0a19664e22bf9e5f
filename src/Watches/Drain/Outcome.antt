-- ===== src/Watches/Drain/Outcome.antt =====
-- What one drain of apps/core/watches/operations/drain.py does to the run table, by its outcomes.
use openmagpie.Prelude.{
  ◌⊎◌, ℕ, ◌≡◌, ◌<◌, ◌≤◌, refl, sym, subst, ap, true, false, Option, none, some, List, [], ◌∷◌,
  arith, length, length-update, All, Bool-cases, Option-cases, inl, inr, ◌∙◌,
}
use openmagpie.Watches.Enums.{RunState, succeeded, Message, state_eq}
use openmagpie.Watches.Model.{Settings, Run, Action, ActionResult, Db, Registry}
use openmagpie.Watches.Runs.Complete.{
  Completion, out_of_scope, lost, won, complete, holds_claim, finish, completion_ts,
}
use openmagpie.Watches.Runs.Sound.{IsSound}
use openmagpie.Watches.Chain.{next_in_chain}
use openmagpie.Watches.Advance.{enqueue_next}
use openmagpie.Watches.Advance.Effects.{enqueue_next_batch-AllHave, has_run}
use openmagpie.Watches.Deliveries.{record_delivery}
use openmagpie.Watches.Drain.{
  resolve, Drained, finished, claim_lost, raised, audit, advance, commit, kind_of, drain,
}

-- The claimed run's tables while it is drained: the audit row changes no run and no action.
pub record IsAudit (db audited : Db) : Type 0 where
  pub runs : audited.runs ≡ db.runs
  pub actions : audited.actions ≡ db.actions
  pub next_id : db.next_id ≤ audited.next_id

pub audit-IsAudit :
    (run : Run) (result : ActionResult) (now : ℕ) (db : Db) → IsAudit db (audit run result now db).1
unfolding audit record_delivery
audit-IsAudit run result now db = record {
  runs = ground arith;
  actions = ground arith;
  next_id = ground arith;
}

Below-weaken : (n m : ℕ) (rs : List Run) → n ≤ m → All (λ r. r.id < n) rs → All (λ r. r.id < m) rs
Below-weaken n m [] h b = tt
Below-weaken n m (r ∷ rs) h b = (omega arith, Below-weaken n m rs h b.1)

pub IsAudit-IsSound :
    (settings : Settings) {db audited : Db}
    → IsAudit db audited
    → IsSound settings db
    → IsSound settings audited
IsAudit-IsSound settings {db} {audited} a s = record {
  consistent = rw a.runs s.consistent;
  keyed = record {
    unique = rw a.runs s.unique;
    ids = rw a.runs s.ids;
    fresh = rw a.runs (Below-weaken db.next_id audited.next_id db.runs a.next_id s.fresh);
  };
}

-- Three ways to come out of a completion.
module _ (run : Run) (action : Option Action) (result : ActionResult) (now : ℕ) (before : Db) where
  commit-claim_lost :
      (c : Completion × Db) {db' : Db}
      → commit run action result now before c ≡ (claim_lost, db')
      → c ≡ (lost, db')
  unfolding commit
  commit-claim_lost (out_of_scope, after) e = ground arith
  commit-claim_lost (lost, after) e = ground arith
  commit-claim_lost (won row, after) e = ground arith

  commit-raised :
      (c : Completion × Db) {db' : Db}
      → commit run action result now before c ≡ (raised, db')
      → before ≡ db'
  unfolding commit
  commit-raised (out_of_scope, after) e = ground arith
  commit-raised (lost, after) e = ground arith
  commit-raised (won row, after) e = ground arith

-- The run won its completion, and its chain advanced if it succeeded.
abbrev pub Finished :
    Run → Option Action → ActionResult → ℕ → ActionResult → Completion × Db → Db → Type 0
Finished run action result now r c db' =
    (r ≡ result)
    × (row : Run) × (after : Db) × (c ≡ (won row, after))
    × (((db' ≡ after) × (state_eq result.state succeeded ≡ false))
        ⊎ ((db' ≡ after) × (action ≡ none))
        ⊎ ((act : Action) × (action ≡ some act)
            × (state_eq result.state succeeded ≡ true)
            × (enqueue_next row act now after ≡ some db')))

advance-Finished :
    (run : Run) (action : Option Action) (result : ActionResult) (now : ℕ) (before : Db) (row : Run)
    (after : Db) {r : ActionResult} {db' : Db}
    → advance row action result now before after ≡ (finished r, db')
    → Finished run action result now r (won row, after) db'
unfolding advance
advance-Finished run none result now before row after e =
    (ground arith, row, after, refl, inr (inl (ground arith, refl)))
advance-Finished run (some act) result now before row after {r} {db'} e =
    elim (Bool-cases (state_eq result.state succeeded)) [
      | inr stopped ↦ (ground arith, row, after, refl, inl (ground arith, stopped))
      | inl on ↦ elim (Option-cases (enqueue_next row act now after)) [
        | inl broken ↦ absurd (ground arith)
        | inr (db, ok) ↦
            (ground arith, row, after, refl, inr (inr (act, refl, on, ok ∙ ap some (ground arith))))
      ]
    ]

commit-Finished :
    (run : Run) (action : Option Action) (result : ActionResult) (now : ℕ) (before : Db)
    (c : Completion × Db) {r : ActionResult} {db' : Db}
    → commit run action result now before c ≡ (finished r, db')
    → Finished run action result now r c db'
unfolding commit
commit-Finished run action result now before (out_of_scope, after) e = absurd (ground arith)
commit-Finished run action result now before (lost, after) e = absurd (ground arith)
commit-Finished run action result now before (won row, after) e =
    advance-Finished run action result now before row after e

module _ (settings : Settings) (run : Run) where
  complete_cases :
      (account_id : ℕ) (state : RunState) (result : ℕ) (error : Message) (delivery_id kind now : ℕ)
      (db : Db) {c : Completion} {db' : Db}
      → complete settings account_id run state result error delivery_id kind now db ≡ (c, db')
      → (length db'.runs ≡ length db.runs) × (db'.actions ≡ db.actions) × (c ≡ lost → db' ≡ db)
  unfolding complete
  complete_cases a state result error d k now db {c} {db'} e = (
    ground (
      arith,
      length-update (holds_claim run)
          (finish state result error d k (completion_ts settings state run.attempts now) now)
          db.runs,
    ),
    ground arith,
    ground arith,
  )

  complete_won :
      (account_id : ℕ) (state : RunState) (result : ℕ) (error : Message) (delivery_id kind now : ℕ)
      (db : Db) {row : Run} {db' : Db}
      → complete settings account_id run state result error delivery_id kind now db ≡ (won row, db')
      → (row.account_id ≡ run.account_id)
        × (row.watch_id ≡ run.watch_id)
        × (row.feed_item_id ≡ run.feed_item_id)
        × (row.id ≡ run.id)
  unfolding complete
  complete_won a state result error d k now db e = ground arith

same_next :
    (account_id : ℕ) (action : Action) (a b : Db)
    → a.actions ≡ b.actions
    → next_in_chain account_id action a ≡ next_in_chain account_id action b
unfolding next_in_chain
same_next account_id action a b e = rw e

module _ (settings : Settings) (registry : Registry) (run : Run) (now : ℕ) (db : Db) where
  abbrev pub action_of : Option Action
  action_of = (resolve registry run db).0

  abbrev pub result_of : ActionResult
  result_of = (resolve registry run db).1

  abbrev pub audited : Db
  audited = (audit run result_of now db).1

  abbrev pub completion : Completion × Db
  completion =
      complete settings run.account_id run result_of.state result_of.result result_of.error
        (audit run result_of now db).0 (kind_of action_of) now audited

  drain_lem :
      drain settings registry run now db ≡ commit run action_of result_of now audited completion
  unfolding drain
  drain_lem = refl

  -- A drain that lost its claim, or whose commit raised, leaves every run as it was.
  pub drain_without_result :
      (d : Drained) (db' : Db)
      → drain settings registry run now db ≡ (d, db')
      → (d ≡ claim_lost) ⊎ (d ≡ raised)
      → db'.runs ≡ db.runs
  drain_without_result d db' e (inl l) =
      let c : completion ≡ (lost, db') =
        commit-claim_lost run action_of result_of now audited completion
          (rw (← drain_lem, ← l) e) in
      let same : db' ≡ audited =
        (complete_cases settings run run.account_id result_of.state result_of.result result_of.error
            (audit run result_of now db).0 (kind_of action_of) now audited c).2
          refl in
      ap (λ (x : Db). x.runs) same ∙ (audit-IsAudit run result_of now db).runs
  drain_without_result d db' e (inr r) =
      let same : audited ≡ db' =
        commit-raised run action_of result_of now audited completion (rw (← drain_lem, ← r) e) in
      ap (λ (x : Db). x.runs) (sym same) ∙ (audit-IsAudit run result_of now db).runs

  pub finished_run :
      (result : ActionResult) (db' : Db)
      → drain settings registry run now db ≡ (finished result, db')
      → Finished run action_of result_of now result completion db'
  finished_run result db' e =
      commit-Finished run action_of result_of now audited completion (rw (← drain_lem) e)

  completed :
      (row : Run) (after : Db)
      → completion ≡ (won row, after)
      → (length after.runs ≡ length db.runs) × (after.actions ≡ db.actions)
  completed row after c =
      let (l, a, _) =
        complete_cases settings run run.account_id result_of.state result_of.result result_of.error
          (audit run result_of now db).0 (kind_of action_of) now audited c in
      let aud = audit-IsAudit run result_of now db in (l ∙ ap length aud.runs, a ∙ aud.actions)

  stopped_length :
      (result : ActionResult) (db' : Db)
      → Finished run action_of result_of now result completion db'
      → state_eq result.state succeeded ≡ false
      → length db'.runs ≡ length db.runs
  stopped_length result db' (same, row, after, c, inl (e, _)) h =
      ap (λ (x : Db). length x.runs) e ∙ (completed row after c).0
  stopped_length result db' (same, row, after, c, inr (inl (e, _))) h =
      ap (λ (x : Db). length x.runs) e ∙ (completed row after c).0
  stopped_length result db' (same, row, after, c, inr (inr (act, some_act, on, ok))) h =
      absurd (ground arith)

  advanced :
      (result : ActionResult) (db' : Db) (action nxt : Action)
      → Finished run action_of result_of now result completion db'
      → action_of ≡ some action
      → next_in_chain run.account_id action db ≡ some nxt
      → state_eq result.state succeeded ≡ true
      → has_run run.account_id run.watch_id nxt.id run.feed_item_id db' ≡ true
  unfolding enqueue_next
  advanced result db' action nxt (same, row, after, c, inl (e, off)) a n on = absurd (ground arith)
  advanced result db' action nxt (same, row, after, c, inr (inl (e, gone))) a n on =
      absurd (ground arith)
  advanced result db' action nxt (same, row, after, c, inr (inr (act, is_act, _, ok))) a n on =
      subst (λ i. has_run i run.watch_id nxt.id run.feed_item_id db' ≡ true) own.0
        (subst (λ i. has_run row.account_id i nxt.id run.feed_item_id db' ≡ true) own.1
          (subst (λ i. has_run row.account_id row.watch_id nxt.id i db' ≡ true) own.2
            (enqueue_next_batch-AllHave row [] act nxt now after db' next_after ok).0))
    where
      own :
          (row.account_id ≡ run.account_id)
          × (row.watch_id ≡ run.watch_id)
          × (row.feed_item_id ≡ run.feed_item_id)
          × (row.id ≡ run.id)
      own =
          complete_won settings run run.account_id result_of.state result_of.result result_of.error
            (audit run result_of now db).0 (kind_of action_of) now audited c

      act_is : act ≡ action
      act_is = ground arith

      next_after : next_in_chain row.account_id act after ≡ some nxt
      next_after =
          subst (λ i. next_in_chain i act after ≡ some nxt) (sym own.0)
            (subst (λ x. next_in_chain run.account_id x after ≡ some nxt) (sym act_is)
              (same_next run.account_id action after db (completed row after c).1 ∙ n))

  drain_finished :
      (result : ActionResult) (db' : Db)
      → drain settings registry run now db ≡ (finished result, db')
      → (result ≡ result_of)
        × (state_eq result.state succeeded ≡ false → length db'.runs ≡ length db.runs)
        × ((action nxt : Action)
            → action_of ≡ some action
            → next_in_chain run.account_id action db ≡ some nxt
            → state_eq result.state succeeded ≡ true
            → has_run run.account_id run.watch_id nxt.id run.feed_item_id db' ≡ true)
  drain_finished result db' e =
      let f = finished_run result db' e in
      (f.0, stopped_length result db' f, λ action nxt. advanced result db' action nxt f)

-- When a drain finishes with a SUCCEEDED result, the run's action resolves, and that action has a
-- next one in its chain, the tables have a run of that next action on the run's item.
pub drain_success_advances :
    (settings : Settings) (registry : Registry) (run : Run) (now : ℕ) (db db' : Db)
    (result : ActionResult) (action nxt : Action)
    → drain settings registry run now db ≡ (finished result, db')
    → (resolve registry run db).0 ≡ some action
    → next_in_chain run.account_id action db ≡ some nxt
    → state_eq result.state succeeded ≡ true
    → has_run run.account_id run.watch_id nxt.id run.feed_item_id db' ≡ true
drain_success_advances settings registry run now db db' result action nxt e a n o =
    (drain_finished settings registry run now db result db' e).2 action nxt a n o

-- A drain that finishes with a result other than SUCCEEDED reports the result its action came to,
-- and the run table has as many rows as before.
pub drain_stops :
    (settings : Settings) (registry : Registry) (run : Run) (now : ℕ) (db db' : Db)
    (result : ActionResult)
    → drain settings registry run now db ≡ (finished result, db')
    → state_eq result.state succeeded ≡ false
    → (result ≡ (resolve registry run db).1) × (length db'.runs ≡ length db.runs)
drain_stops settings registry run now db db' result e o =
    let (same, stopped, _) = drain_finished settings registry run now db result db' e in
    (same, stopped o)
