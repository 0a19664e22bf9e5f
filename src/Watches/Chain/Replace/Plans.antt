-- ===== src/Watches/Chain/Replace/Plans.antt =====
-- The state of the loop of `replace_chain` in apps/core/watches/services/watches/_actions.py.
use openmagpie.Prelude.{
  ℕ, ◌≤◌, ◌<◌, ◌≡◌, refl, subst, ◌∙◌, Bool, false, ◌||◌, ◌⊎◌, inl, inr, Option, none, some, List,
  [], ◌∷◌, ◌++◌, ◌==◌, find, exists, exists-append, select, order_by, insert_by, All, Unique, arith,
  Bool-cases, find-true, find-absent, or_else, if◌then◌else◌,
}
use openmagpie.Watches.Model.{Action, Db, same_action}
use openmagpie.Watches.Runs.Complete.{id_in}
use openmagpie.Watches.Chain.{list_for_path, ranks_before, is_on_path}
use openmagpie.Watches.Chain.Edits.Ranked.{AllBelow}
use openmagpie.Watches.Chain.Edits.Rows.{has_id, row_of}
use openmagpie.Watches.Chain.Replace.{ActionInput, Plan, ReplaceError, resolve_prior}

-- The rows of a plan are distinct: those that it updates are the existing ones with the ids in
-- `kept_ids`, but for their kind and config, and those that it creates have ids of their own, from
-- `n` on.
pub record IsPlan (n : ℕ) (existing : List Action) (plan : Plan) : Type 0 where
  pub distinct : Unique same_action plan.ordered
  pub distinct_updated : Unique same_action plan.updated
  pub below : All (λ a. a.id < plan.next_id) plan.ordered
  pub grown : n ≤ plan.next_id
  pub fresh : All (λ a. n ≤ a.id) plan.created
  pub kept : (id : ℕ) → exists (has_id id) plan.updated ≡ id_in plan.kept_ids id
  pub whole :
      (id : ℕ) → row_of id plan.ordered ≡ or_else (row_of id plan.updated) (row_of id plan.created)
  pub backed :
      (id : ℕ) (x : Action)
      → row_of id plan.updated ≡ some x
      → (y : Action) × (row_of id existing ≡ some y)
        × (x ≡ record y { kind = x.kind; config = x.config })

pub result-cases :
    {A : Type 0} (r : ReplaceError ⊎ A)
    → ((e : ReplaceError) × (r ≡ inl e)) ⊎ ((a : A) × (r ≡ inr a))
result-cases (inl e) = inl (e, refl)
result-cases (inr a) = inr (a, refl)

pub fresh-absent :
    (n id : ℕ) (created : List Action)
    → id < n
    → All (λ a. n ≤ a.id) created
    → exists (has_id id) created ≡ false
unfolding exists
fresh-absent n id [] h f = refl
fresh-absent n id (a ∷ created) h f = ground (arith, fresh-absent n id created h f.1)

pub below-absent :
    (id : ℕ) (rows : List Action) → All (λ a. a.id < id) rows → exists (has_id id) rows ≡ false
unfolding exists
below-absent id [] h = refl
below-absent id (a ∷ rows) h = ground (arith, below-absent id rows h.1)

pub id_in-append : (xs : List ℕ) (x id : ℕ) → id_in (xs ++ x ∷ []) id ≡ (id_in xs id || x == id)
unfolding id_in exists
id_in-append xs x id = exists-append (λ i. i == id) xs (x ∷ []) ∙ ground arith

find-below :
    (n id : ℕ) (rows : List Action) (row : Action)
    → AllBelow n rows
    → find (has_id id) rows ≡ some row
    → row.id < n
unfolding find
find-below n id [] row h e = ground arith
find-below n id (a ∷ rows) row h e = elim (Bool-cases (has_id id a)) [
  | inl hit ↦ ground (arith, h.0)
  | inr miss ↦ find-below n id rows row h.1 (rw miss at e)
]

insert_by-AllBelow :
    (n : ℕ) (before : Action → Action → Bool) (x : Action) (ys : List Action)
    → x.id < n
    → AllBelow n ys
    → AllBelow n (insert_by before x ys)
unfolding insert_by
insert_by-AllBelow n before x [] l h = (l, tt)
insert_by-AllBelow n before x (y ∷ ys) l h = elim (Bool-cases (before x y)) [
  | inl b ↦ rw b (l, h)
  | inr b ↦ rw b (h.0, insert_by-AllBelow n before x ys l h.1)
]

order_by-AllBelow :
    (n : ℕ) (before : Action → Action → Bool) (p : Action → Bool) (xs : List Action)
    → AllBelow n xs
    → AllBelow n (order_by before (select p xs))
unfolding order_by select
order_by-AllBelow n before p [] h = tt
order_by-AllBelow n before p (x ∷ xs) h = elim (Bool-cases (p x)) [
  | inl b ↦ rw b (insert_by-AllBelow n before x _ h.0 (order_by-AllBelow n before p xs h.1))
  | inr b ↦ rw b (order_by-AllBelow n before p xs h.1)
]

pub list_for_path-AllBelow :
    (account_id path_id n : ℕ) (db : Db)
    → AllBelow n db.actions
    → AllBelow n (list_for_path account_id path_id db)
unfolding list_for_path
list_for_path-AllBelow a p n db h =
    order_by-AllBelow n (ranks_before a) (is_on_path a p) db.actions h

-- The existing row of an input: none without an id.
abbrev pub prior_of : ActionInput → List Action → Option Action
prior_of input existing = if input.id == 0 then none else row_of input.id existing

-- What the row of an input is: new, or an existing one that no earlier input named.
abbrev pub IsPrior : ℕ → List Action → List ℕ → ActionInput → Option Action → Type 0
IsPrior n existing kept_ids input none = input.id ≡ 0
IsPrior n existing kept_ids input (some row) =
    (row.id < n) × (id_in kept_ids row.id ≡ false) × (row_of row.id existing ≡ some row)

found-IsPrior :
    (n : ℕ) (input : ActionInput) (existing : List Action) (kept_ids : List ℕ) (row : Action)
    → AllBelow n existing
    → row_of input.id existing ≡ some row
    → id_in kept_ids input.id ≡ false
    → IsPrior n existing kept_ids input (some row)
found-IsPrior n input existing kept_ids row h e new =
    let named : input.id ≡ row.id =
      let hit = find-true (has_id input.id) existing row e in ground arith in
    (
      find-below n input.id existing row h e,
      subst (λ i. id_in kept_ids i ≡ false) named new,
      subst (λ i. row_of i existing ≡ some row) named e,
    )

pub resolve_prior-IsPrior :
    (n : ℕ) (input : ActionInput) (existing : List Action) (kept_ids : List ℕ)
    (prior : Option Action)
    → AllBelow n existing
    → resolve_prior input.id existing kept_ids ≡ inr prior
    → IsPrior n existing kept_ids input prior
unfolding resolve_prior
resolve_prior-IsPrior n input existing kept_ids none h e = ground (arith, e)
resolve_prior-IsPrior n input existing kept_ids (some row) h e =
    ground (arith, found-IsPrior n input existing kept_ids row h)

pub resolve_prior-prior_of :
    (input : ActionInput) (existing : List Action) (kept_ids : List ℕ) (prior : Option Action)
    → resolve_prior input.id existing kept_ids ≡ inr prior
    → prior ≡ prior_of input existing
unfolding resolve_prior
resolve_prior-prior_of input existing kept_ids none e = ground (arith, e)
resolve_prior-prior_of input existing kept_ids (some row) e = ground (arith, e)

pub absent-row_of :
    (id : ℕ) (rows : List Action) → exists (has_id id) rows ≡ false → row_of id rows ≡ none
absent-row_of id rows h = find-absent (has_id id) (has_id id) (λ x e. e) rows h

pub or_else-none : (a : Option Action) → or_else a none ≡ a
unfolding or_else
or_else-none none = refl
or_else-none (some x) = refl
