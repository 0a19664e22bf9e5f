-- ===== src/Watches/Chain/Replace/Steps.antt =====
-- The loop of `replace_chain` in apps/core/watches/services/watches/_actions.py, input by input.
use openmagpie.Prelude.{
  find, find-append, exists-find, or_else, is_some, ◌==◌, Bool-cases, ℕ, suc, ◌≤◌, ◌<◌, ◌≡◌, refl,
  sym, subst, ◌∙◌, ap, Bool, false, inl, inr, Option, none, some, List, [], ◌∷◌, ◌++◌, exists,
  exists-append, append-nil, append_assoc, All-append, All-imp, Unique-append_one, arith,
  Option-cases,
}
use openmagpie.Watches.Model.{Action, Config, Db, same_action}
use openmagpie.Watches.Runs.Complete.{id_in}
use openmagpie.Watches.Chain.Edits.{new_action}
use openmagpie.Watches.Chain.Edits.Ranked.{AllBelow}
use openmagpie.Watches.Chain.Replace.{
  ActionInput, Plan, resolve_prior, same_kind_prior, place, plan_input, plan_inputs, start_plan,
}
use openmagpie.Watches.Chain.Edits.Rows.{has_id, row_of, same_action-has_id}
use openmagpie.Watches.Chain.Replace.Plans.{
  prior_of, resolve_prior-prior_of, IsPlan, result-cases, fresh-absent, below-absent, id_in-append,
  absent-row_of, or_else-none, IsPrior, resolve_prior-IsPrior,
}

or_else_assoc : (a b c : Option Action) → or_else (or_else a b) c ≡ or_else a (or_else b c)
unfolding or_else
or_else_assoc none b c = refl
or_else_assoc (some x) b c = refl

module _ (merge : ℕ → ℕ → Option Config → Option Config) (kinds : ℕ → Bool)
    (n account_id path_id : ℕ) (existing : List Action) where
  abbrev placed : Option Action → ActionInput → Config → Plan → Plan
  placed = place merge kinds account_id path_id

  place_new-IsPlan :
      (input : ActionInput) (merged : Config) (plan : Plan)
      → IsPlan n existing plan
      → IsPlan n existing (placed none input merged plan)
  unfolding place exists find or_else
  place_new-IsPlan input merged plan good = record {
    distinct =
        Unique-append_one same_action (λ a b. ground arith) plan.ordered row good.distinct
          (same_action-has_id row plan.ordered ∙ below-absent plan.next_id plan.ordered good.below);
    below =
        All-append (λ a. a.id < suc plan.next_id) plan.ordered (row ∷ [])
          (All-imp (λ a. a.id < plan.next_id) (λ a. a.id < suc plan.next_id) (λ a h. omega arith)
            plan.ordered good.below)
          (omega arith, tt);
    grown = let h = good.grown in omega arith;
    fresh = All-append (λ a. n ≤ a.id) plan.created (row ∷ []) good.fresh (good.grown, tt);
    distinct_updated = good.distinct_updated;
    kept = good.kept;
    backed = good.backed;
    whole = λ id.
        find-append (has_id id) plan.ordered (row ∷ [])
        ∙ rw (good.whole id, find-append (has_id id) plan.created (row ∷ []))
            (or_else_assoc (row_of id plan.updated) (row_of id plan.created)
              (row_of id (row ∷ [])));
  }
    where
      row : Action
      row = new_action account_id plan.next_id path_id input.kind merged plan.temp_rank

  place_existing-IsPlan :
      (row : Action) (input : ActionInput) (merged : Config) (plan : Plan)
      → row.id < n
      → id_in plan.kept_ids row.id ≡ false
      → row_of row.id existing ≡ some row
      → IsPlan n existing plan
      → IsPlan n existing (placed (some row) input merged plan)
  unfolding place exists find or_else
  place_existing-IsPlan row input merged plan l new stands good = record {
    distinct =
        Unique-append_one same_action (λ a b. ground arith) plan.ordered row' good.distinct
          (same_action-has_id row' plan.ordered
            ∙ exists-find (has_id row.id) plan.ordered
            ∙ ap is_some unplaced);
    distinct_updated =
        Unique-append_one same_action (λ a b. ground arith) plan.updated row' good.distinct_updated
          (same_action-has_id row' plan.updated ∙ good.kept row.id ∙ new);
    kept = λ id.
        exists-append (has_id id) plan.updated (row' ∷ [])
        ∙ ground (arith, good.kept id, id_in-append plan.kept_ids row.id id);
    below =
        All-append (λ a. a.id < plan.next_id) plan.ordered (row' ∷ []) good.below
          (let h = good.grown in omega arith, tt);
    grown = good.grown;
    fresh = good.fresh;
    whole = λ id.
        find-append (has_id id) plan.ordered (row' ∷ [])
        ∙ rw (good.whole id, find-append (has_id id) plan.updated (row' ∷ [])) (joined id);
    backed = λ id x e. elim (Option-cases (row_of id plan.updated)) [
      | inl before ↦
          found id x (ground (arith, e, before, find-append (has_id id) plan.updated (row' ∷ [])))
      | inr (z, before) ↦
          good.backed id x
            (ground (arith, e, before, find-append (has_id id) plan.updated (row' ∷ [])))
    ];
  }
    where
      row' : Action
      row' = record row { kind = input.kind; config = merged }

      unkept : row_of row.id plan.updated ≡ none
      unkept = absent-row_of row.id plan.updated (good.kept row.id ∙ new)

      uncreated : row_of row.id plan.created ≡ none
      uncreated =
          absent-row_of row.id plan.created (fresh-absent n row.id plan.created l good.fresh)

      unplaced : row_of row.id plan.ordered ≡ none
      unplaced = rw (good.whole row.id, unkept, uncreated) refl

      joined :
          (id : ℕ)
          → or_else
              (or_else (row_of id plan.updated) (row_of id plan.created))
              (row_of id (row' ∷ []))
            ≡ or_else
                (or_else (row_of id plan.updated) (row_of id (row' ∷ [])))
                (row_of id plan.created)
      joined id = elim (Bool-cases (row.id == id)) [
        | inl hit ↦
            let own : row.id ≡ id = ground arith in
            let u = subst (λ i. row_of i plan.updated ≡ none) own unkept in
            let c = subst (λ i. row_of i plan.created ≡ none) own uncreated in rw (u, c, hit) refl
        | inr miss ↦
            rw
              (
                miss,
                or_else-none (or_else (row_of id plan.updated) (row_of id plan.created)),
                or_else-none (row_of id plan.updated),
              )
              refl
      ]

      found :
          (id : ℕ) (x : Action)
          → row_of id (row' ∷ []) ≡ some x
          → (y : Action) × (row_of id existing ≡ some y)
            × (x ≡ record y { kind = x.kind; config = x.config })
      found id x e = elim (Bool-cases (row.id == id)) [
        | inl hit ↦
            let own : row.id ≡ id = ground arith in
            let same : some row' ≡ some x = ground (arith, hit, e) in
            let is : row' ≡ x = ground (arith, same) in
            (
              row,
              subst (λ i. row_of i existing ≡ some row) own stands,
              subst (λ q. q ≡ record row { kind = q.kind; config = q.config }) is refl,
            )
        | inr miss ↦ absurd (ground (arith, miss, e))
      ]

  place-IsPlan :
      (prior : Option Action) (input : ActionInput) (merged : Config) (plan : Plan)
      → IsPrior n existing plan.kept_ids input prior
      → IsPlan n existing plan
      → IsPlan n existing (placed prior input merged plan)
  place-IsPlan none input merged plan h good = place_new-IsPlan input merged plan good
  place-IsPlan (some row) input merged plan h good =
      place_existing-IsPlan row input merged plan h.0 h.1 h.2 good

  -- The row of an input: its config is merged with that of the existing row, if the kind is the
  -- same; an existing row changes in its kind and config only, and a new one has a new id.
  abbrev pub IsRowOf : ActionInput → Option Action → Action → Type 0
  IsRowOf input prior row =
      (merge input.kind input.config (same_kind_prior prior input.kind) ≡ some row.config)
      × elim prior [
        | none ↦
            (input.id ≡ 0)
            × (n ≤ row.id)
            × (row.kind ≡ input.kind)
            × (row.account_id ≡ account_id)
            × (row.path_id ≡ path_id)
        | some old ↦ row ≡ record old { kind = input.kind; config = row.config }
      ]

  -- The rows are those of the inputs, in their order.
  abbrev pub AreRows : List ActionInput → List Action → Type 0
  AreRows [] [] = Unit
  AreRows (input ∷ inputs) (row ∷ rows) =
      IsRowOf input (prior_of input existing) row × AreRows inputs rows
  AreRows [] (row ∷ rows) = ⊥
  AreRows (input ∷ inputs) [] = ⊥

  place-IsRowOf :
      (prior : Option Action) (input : ActionInput) (merged : Config) (plan : Plan)
      → IsPlan n existing plan
      → IsPrior n existing plan.kept_ids input prior
      → merge input.kind input.config (same_kind_prior prior input.kind) ≡ some merged
      → (row : Action) × IsRowOf input prior row
        × ((placed prior input merged plan).ordered ≡ plan.ordered ++ row ∷ [])
  unfolding place
  place-IsRowOf none input merged plan good h m =
      let made = new_action account_id plan.next_id path_id input.kind merged plan.temp_rank in
      (made, (m, (h, good.grown, refl, refl, refl)), refl)
  place-IsRowOf (some row) input merged plan good h m =
      (record row { kind = input.kind; config = merged }, (m, refl), refl)

  -- A step of the loop places the input.
  plan_input-place :
      (input : ActionInput) (plan after : Plan)
      → plan_input merge kinds account_id path_id existing input plan ≡ inr after
      → (prior : Option Action) × (merged : Config) × (resolve_prior input.id existing plan.kept_ids
          ≡ inr prior)
        × (merge input.kind input.config (same_kind_prior prior input.kind) ≡ some merged)
        × (placed prior input merged plan ≡ after)
  unfolding plan_input
  plan_input-place input plan after e =
      elim (result-cases (resolve_prior input.id existing plan.kept_ids)) [
        | inl (error, r) ↦ ground (arith, e, r)
        | inr (prior, r) ↦
            let same_kind = same_kind_prior prior input.kind in
            elim (Option-cases (merge input.kind input.config same_kind)) [
              | inl m ↦ ground (arith, e, r, m)
              | inr (merged, m) ↦ (prior, merged, r, m, ground (arith, e, r, m))
            ]
      ]

  pub plan_inputs-IsPlan :
      (inputs : List ActionInput) (plan after : Plan)
      → AllBelow n existing
      → IsPlan n existing plan
      → plan_inputs merge kinds account_id path_id existing inputs plan ≡ inr after
      → IsPlan n existing after
        × (rows : List Action) × (after.ordered ≡ plan.ordered ++ rows)
        × AreRows inputs rows
  unfolding plan_inputs
  plan_inputs-IsPlan [] plan after h good e =
      let same : plan ≡ after = ground arith in
      subst
        (λ q.
          IsPlan n existing q
          × (rows : List Action) × (q.ordered ≡ plan.ordered ++ rows)
          × AreRows [] rows)
        same (good, [], sym (append-nil plan.ordered), tt)
  plan_inputs-IsPlan (input ∷ inputs) plan after h good e =
      elim (result-cases (plan_input merge kinds account_id path_id existing input plan)) [
        | inl (error, r) ↦ ground (arith, e, r)
        | inr (next, r) ↦
            let (prior, merged, q, m, s) = plan_input-place input plan next r in
            let prior_good = resolve_prior-IsPrior n input existing plan.kept_ids prior h q in
            let (done, rows, eq, are) =
              plan_inputs-IsPlan inputs next after h
                (subst (IsPlan n existing) s (place-IsPlan prior input merged plan prior_good good))
                (ground (arith, e, r)) in
            let (row, is_row, placed_eq) =
              place-IsRowOf prior input merged plan good prior_good m in
            (
              done,
              row ∷ rows,
              eq
                  ∙ ap (λ xs. xs ++ rows) (ap (λ q. q.ordered) (sym s) ∙ placed_eq)
                  ∙ append_assoc plan.ordered (row ∷ []) rows,
              (
                subst (λ o. IsRowOf input o row)
                    (resolve_prior-prior_of input existing plan.kept_ids prior q) is_row,
                are,
              ),
            )
      ]

  pub start_plan-IsPlan :
      (db : Db)
      → n ≡ db.next_id
      → IsPlan n existing (start_plan merge kinds account_id path_id existing db)
  unfolding start_plan exists id_in find or_else
  start_plan-IsPlan db e = record {
    distinct = tt;
    below = tt;
    grown = omega arith;
    fresh = tt;
    distinct_updated = tt;
    kept = λ id. refl;
    whole = λ id. refl;
    backed = λ id x e. absurd (ground (arith, e));
  }
