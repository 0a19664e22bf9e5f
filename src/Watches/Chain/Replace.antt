-- ===== src/Watches/Chain/Replace.antt =====
-- `replace_chain` of apps/core/watches/services/watches/_actions.py: a path's chain is reconciled with
-- the submitted actions, by id.
pub mod Plans
pub mod Steps
pub mod Present
pub mod Replaced
use openmagpie.Prelude.{
  ℕ, suc, ◌+◌, Bool, true, false, not, ◌&&◌, ◌⊎◌, inl, inr, Option, none, some, List, [], ◌∷◌, ◌++◌,
  ◌==◌, if◌then◌else◌, is_some, length, find, exists, select, update, remove,
}
use openmagpie.Watches.Model.{Action, Config, Db}
use openmagpie.Watches.Runs.Complete.{id_in}
use openmagpie.Watches.Windows.{clear_digest_windows}
use openmagpie.Watches.Chain.{list_for_path}
use openmagpie.Watches.Chain.Edits.{renumber, is_digest, new_action}

-- `WatchActionInput`: id 0 is none, `masked` is whether a secret is `***`.
pub record ActionInput : Type 0 where
  pub id : ℕ
  pub kind : ℕ
  pub config : ℕ
  pub masked : Bool

-- ConcurrentChainError, and the PolicyErrors.
pub data ReplaceError : Type 0 where
  chain_contended not_on_watch repeated_action unrestorable_secret invalid_input unreadable_kind :
      ReplaceError

-- The locals of the loop over the inputs; `next_id` is the next fresh id.
pub record Plan : Type 0 where
  pub ordered : List Action
  pub updated : List Action
  pub created : List Action
  pub kept_ids : List ℕ
  pub windows_to_clear : List ℕ
  pub temp_rank : ℕ
  pub next_id : ℕ

-- `_resolve_prior`.
unfoldable pub resolve_prior : ℕ → List Action → List ℕ → ReplaceError ⊎ Option Action
unfolding find id_in
resolve_prior sid existing kept_ids =
    if sid == 0 then inr none else elim (find (λ a. a.id == sid) existing) [
      | none ↦ inl not_on_watch
      | some row ↦ if id_in kept_ids sid then inl repeated_action else inr (some row)
    ]

abbrev same_kind_prior : Option Action → ℕ → Option Config
same_kind_prior none kind = none
same_kind_prior (some row) kind = if row.kind == kind then some row.config else none

unfoldable pub ids : List Action → List ℕ
ids [] = []
ids (a ∷ as_) = a.id ∷ ids as_

-- `bulk_update(updated, ["kind", "config"])`.
unfoldable pub write_configs : List Action → Db → Db
unfolding update
write_configs [] db = db
write_configs (row ∷ rows) db = write_configs rows (record db {
  actions =
      update (λ a. row.id == a.id) (λ a. record a { kind = row.kind; config = row.config })
        db.actions;
})

-- `merge` is `merge_config` on the input and the prior config, `none` where it raises; `known` is
-- `known_kinds()`.
module _ (merge : ℕ → ℕ → Option Config → Option Config) (known : ℕ → Bool)
    (account_id path_id : ℕ) where
  -- What the loop does with an input that was merged.
  unfoldable pub place : Option Action → ActionInput → Config → Plan → Plan
  place (some row) input merged plan =
      let row' = record row { kind = input.kind; config = merged } in
      record plan {
        ordered = plan.ordered ++ row' ∷ [];
        updated = plan.updated ++ row' ∷ [];
        kept_ids = plan.kept_ids ++ row.id ∷ [];
        windows_to_clear =
            if is_digest merged
            then plan.windows_to_clear
            else plan.windows_to_clear ++ row.id ∷ [];
      }
  place none input merged plan =
      let row = new_action account_id plan.next_id path_id input.kind merged plan.temp_rank in
      record plan {
        ordered = plan.ordered ++ row ∷ [];
        created = plan.created ++ row ∷ [];
        temp_rank = suc plan.temp_rank;
        next_id = suc plan.next_id;
      }

  unfoldable pub plan_input : List Action → ActionInput → Plan → ReplaceError ⊎ Plan
  unfolding resolve_prior place
  plan_input existing input plan = elim (resolve_prior input.id existing plan.kept_ids) [
    | inl error ↦ inl error
    | inr prior ↦
        let same_kind = same_kind_prior prior input.kind in
        if not (is_some same_kind) && input.masked
        then inl unrestorable_secret
        else elim (merge input.kind input.config same_kind) [
          | none ↦ inl invalid_input
          | some merged ↦ inr (place prior input merged plan)
        ]
  ]

  unfoldable pub plan_inputs : List Action → List ActionInput → Plan → ReplaceError ⊎ Plan
  unfolding plan_input
  plan_inputs existing [] plan = inr plan
  plan_inputs existing (input ∷ inputs) plan = elim (plan_input existing input plan) [
    | inl error ↦ inl error
    | inr after ↦ plan_inputs existing inputs after
  ]

  -- The transaction, for the rows to remove.
  unfoldable pub apply_plan : List ℕ → Plan → Db → Db
  unfolding remove id_in clear_digest_windows write_configs renumber
  apply_plan removed_ids plan db =
      let kept = record db {
        actions = remove (λ a. a.account_id == account_id && id_in removed_ids a.id) db.actions;
      } in
      let cleared = clear_digest_windows account_id (removed_ids ++ plan.windows_to_clear) kept in
      let updated = write_configs plan.updated cleared in
      renumber plan.ordered
        (record updated { actions = updated.actions ++ plan.created; next_id = plan.next_id })

  unfoldable pub start_plan : List Action → Db → Plan
  start_plan existing db = record {
    ordered = [];
    updated = [];
    created = [];
    kept_ids = [];
    windows_to_clear = [];
    temp_rank = length existing + 1;
    next_id = db.next_id;
  }

  unfoldable pub replace_locked : List ActionInput → Db → (ReplaceError ⊎ Plan) × Db
  unfolding list_for_path plan_inputs start_plan select exists ids apply_plan
  replace_locked inputs db =
      let existing = list_for_path account_id path_id db in
      elim (plan_inputs existing inputs (start_plan existing db)) [
        | inl error ↦ (inl error, db)
        | inr plan ↦
            let removed = select (λ a. not (id_in plan.kept_ids a.id)) existing in
            if exists (λ a. not (known a.kind)) removed
            then (inl unreadable_kind, db)
            else (inr plan, apply_plan (ids removed) plan db)
      ]

  -- `replace_chain`, with whether the path's lock was acquired. Its result is the chain that
  -- `list_for_path` then reads; the plan stands for the locals.
  unfoldable pub replace_chain : Bool → List ActionInput → Db → (ReplaceError ⊎ Plan) × Db
  unfolding replace_locked
  replace_chain acquired inputs db =
      let done = replace_locked inputs db in if acquired then done else (inl chain_contended, db)
