-- ===== src/Watches/Chain/Replace/Replaced.antt =====
-- What `replace_chain` of apps/core/watches/services/watches/_actions.py does to a path's chain.
use openmagpie.Prelude.{
  ℕ, ◌≡◌, refl, sym, subst, Bool, true, false, not, ◌⊎◌, inl, inr, Option, List, if◌then◌else◌,
  exists, select, or_else, none, Unique, arith, Bool-cases,
}
use openmagpie.Watches.Model.{Action, Config, Db, same_action}
use openmagpie.Watches.Runs.Complete.{id_in}
use openmagpie.Watches.Chain.{list_for_path}
use openmagpie.Watches.Chain.Edits.Ranked.{AllBelow}
use openmagpie.Watches.Chain.Replace.{
  ActionInput, Plan, ReplaceError, unreadable_kind, ids, plan_inputs, start_plan, apply_plan,
  replace_locked, replace_chain,
}
use openmagpie.Watches.Chain.Replace.Plans.{result-cases, list_for_path-AllBelow}
use openmagpie.Watches.Chain.Replace.Present.{row_of-apply_plan}
use openmagpie.Watches.Chain.Edits.Rows.{has_id, row_of, ranked}
use openmagpie.Watches.Chain.Replace.Steps.{AreRows, plan_inputs-IsPlan, start_plan-IsPlan}

module _ (merge : ℕ → ℕ → Option Config → Option Config) (known : ℕ → Bool)
    (account_id path_id : ℕ) where
  -- What a `replace_chain` did: on an error nothing; else the rows of its plan are distinct, one for
  -- each input in their order, and the row of an id in the table is that of the plan with the rank of
  -- its place, else it was not on the path and is as before.
  abbrev pub IsReplaced : ℕ → List ActionInput → (ReplaceError ⊎ Plan) × Db → Db → Type 0
  IsReplaced id inputs (inl error, after) db = after ≡ db
  IsReplaced id inputs (inr plan, after) db =
      let existing = list_for_path account_id path_id db in
      Unique same_action plan.ordered
      × AreRows merge known db.next_id account_id path_id existing inputs plan.ordered
      × (row_of id after.actions
          ≡ or_else (row_of id (ranked 0 plan.ordered))
              (if exists (has_id id) existing then none else row_of id db.actions))

  abbrev removed_rows : Plan → Db → List Action
  removed_rows plan db =
      select (λ a. not (id_in plan.kept_ids a.id)) (list_for_path account_id path_id db)

  abbrev planned : List ActionInput → Db → ReplaceError ⊎ Plan
  planned inputs db =
      let existing = list_for_path account_id path_id db in
      plan_inputs merge known account_id path_id existing inputs
        (start_plan merge known account_id path_id existing db)

  abbrev outcome : ReplaceError ⊎ Plan → Db → (ReplaceError ⊎ Plan) × Db
  outcome (inl error) db = (inl error, db)
  outcome (inr plan) db =
      let removed = removed_rows plan db in
      if exists (λ a. not (known a.kind)) removed
      then (inl unreadable_kind, db)
      else (inr plan, apply_plan merge known account_id path_id (ids removed) plan db)

  replace_locked-outcome :
      (inputs : List ActionInput) (db : Db)
      → replace_locked merge known account_id path_id inputs db ≡ outcome (planned inputs db) db
  unfolding replace_locked
  replace_locked-outcome inputs db = elim (result-cases (planned inputs db)) [
    | inl (error, r) ↦ ground (arith, r)
    | inr (plan, r) ↦ ground (arith, r)
  ]

  planned-IsReplaced :
      (id : ℕ) (inputs : List ActionInput) (db : Db) (r : ReplaceError ⊎ Plan)
      → Unique same_action db.actions
      → AllBelow db.next_id db.actions
      → planned inputs db ≡ r
      → IsReplaced id inputs (outcome r db) db
  unfolding start_plan
  planned-IsReplaced id inputs db (inl error) u h e = refl
  planned-IsReplaced id inputs db (inr plan) u h e =
      let existing = list_for_path account_id path_id db in
      let (good, rows, eq, are) =
        plan_inputs-IsPlan merge known db.next_id account_id path_id existing inputs
          (start_plan merge known account_id path_id existing db) plan
          (list_for_path-AllBelow account_id path_id db.next_id db h)
          (start_plan-IsPlan merge known db.next_id account_id path_id existing db refl) e in
      elim (Bool-cases (exists (λ a. not (known a.kind)) (removed_rows plan db))) [
        | inl hidden ↦ rw hidden refl
        | inr shown ↦ rw shown (
          good.distinct,
          subst (AreRows merge known db.next_id account_id path_id existing inputs) (sym eq) are,
          row_of-apply_plan account_id path_id id db u plan good h merge known,
        )
      ]

  replace_locked-IsReplaced :
      (id : ℕ) (inputs : List ActionInput) (db : Db)
      → Unique same_action db.actions
      → AllBelow db.next_id db.actions
      → IsReplaced id inputs (replace_locked merge known account_id path_id inputs db) db
  replace_locked-IsReplaced id inputs db u h =
      rw replace_locked-outcome (planned-IsReplaced id inputs db _ u h refl)

  -- When no two actions have one id and all ids are below the next one, a `replace_chain` that
  -- fails, also for the lock, changes nothing. One that succeeds leaves in its plan distinct rows,
  -- one for each submitted action in their order: the config is the submitted one, merged with
  -- that of the path's row of the submitted id if the kind is the same; that row changes in its
  -- kind and config only; without a submitted id the row is of the path, with a new id. The table
  -- then has those rows with the ranks 0, 1 and so on, no other row of the path, and every row
  -- that was not on the path as before.
  pub replace_chain-IsReplaced :
      (id : ℕ) (acquired : Bool) (inputs : List ActionInput) (db : Db)
      → Unique same_action db.actions
      → AllBelow db.next_id db.actions
      → IsReplaced id inputs (replace_chain merge known account_id path_id acquired inputs db) db
  unfolding replace_chain
  replace_chain-IsReplaced id true inputs db u h = replace_locked-IsReplaced id inputs db u h
  replace_chain-IsReplaced id false inputs db u h = refl
