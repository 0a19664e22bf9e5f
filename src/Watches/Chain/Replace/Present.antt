-- ===== src/Watches/Chain/Replace/Present.antt =====
-- The table after the transaction of `replace_chain` in apps/core/watches/services/watches/_actions.py.
use openmagpie.Prelude.{
  ℕ, ◌≡◌, refl, sym, subst, ap, ◌∙◌, Bool, true, false, not, ◌&&◌, inl, inr, Option, none, some,
  List, [], ◌∷◌, ◌++◌, ◌==◌, if◌then◌else◌, exists, exists-find, find, find-append, find-remove,
  find-remove_found, find-remove_absent, ltb, ◌≤◌, find-update, remove, select, Unique, is_some,
  or_else, arith, Bool-cases, Option-cases,
}
use mathlib.Core.Option.{map as map_option}
use openmagpie.Watches.Model.{Action, Config, Db, same_action}
use openmagpie.Watches.Runs.Complete.{id_in}
use openmagpie.Watches.Windows.{clear_digest_windows}
use openmagpie.Watches.Chain.{list_for_path, is_on_path}
use openmagpie.Watches.Chain.Edits.Ranked.{AllBelow}
use openmagpie.Watches.Chain.Edits.Rows.{
  has_id, row_of, row_of-id, ranked, ranked-is_some, or_else-some, refl-IsRow, row_of-renumber,
  row_of-list_for_path, chain-row_of, same_action-has_id,
}
use openmagpie.Watches.Chain.Replace.{Plan, ids, write_configs, apply_plan}
use openmagpie.Watches.Chain.Replace.Plans.{IsPlan, or_else-none, absent-row_of, fresh-absent}

-- The kind and the config of a row, written to another.
abbrev rewritten : Action → Action → Action
rewritten x a = record a { kind = x.kind; config = x.config }

abbrev rewritten_by : Option Action → Option Action → Option Action
rewritten_by none o = o
rewritten_by (some x) o = map_option (rewritten x) o

written_row :
    (x : Action) (id : ℕ) (o : Option Action)
    → ((a : Action) → o ≡ some a → a.id ≡ id)
    → map_option (λ a. if x.id == a.id then rewritten x a else a) o
      ≡ (if x.id == id then map_option (rewritten x) o else o)
written_row x id none own = ground arith
written_row x id (some a) own = let same = own a refl in ground arith

row_of-write_configs :
    (id : ℕ) (rows : List Action) (db : Db)
    → Unique same_action rows
    → row_of id (write_configs rows db).actions
      ≡ rewritten_by (row_of id rows) (row_of id db.actions)
unfolding write_configs find
row_of-write_configs id [] db u = refl
row_of-write_configs id (x ∷ rows) db u =
    row_of-write_configs id rows _ u.1
    ∙ ap (rewritten_by (row_of id rows)) (
        find-update (has_id id) (λ a. x.id == a.id) (rewritten x) (λ a. refl) db.actions
        ∙ written_row x id (row_of id db.actions) (row_of-id id db.actions))
    ∙ elim (Bool-cases (x.id == id)) [
      | inl hit ↦
          let own : x.id ≡ id = ground arith in
          let gone : row_of id rows ≡ none = absent-row_of id rows (
            subst (λ i. exists (has_id i) rows ≡ false) own
              (sym (same_action-has_id x rows) ∙ u.0)) in
          rw (hit, gone) refl
      | inr miss ↦ rw miss refl
    ]

-- The ids of the existing rows that are not kept.
removed-id_in :
    (id : ℕ) (kept_ids : List ℕ) (rows : List Action)
    → id_in (ids (select (λ a. not (id_in kept_ids a.id)) rows)) id
      ≡ (exists (has_id id) rows && not (id_in kept_ids id))
unfolding id_in exists ids select
removed-id_in id kept_ids [] = refl
removed-id_in id kept_ids (a ∷ rows) = elim (Bool-cases (id_in kept_ids a.id)) [
  | inl kept ↦ rw kept (
      removed-id_in id kept_ids rows ∙ elim (Bool-cases (a.id == id)) [
        | inl hit ↦
            let own : a.id ≡ id = ground arith in
            let same : id_in kept_ids id ≡ true = subst (λ i. id_in kept_ids i ≡ true) own kept in
            rw (hit, same) (ground arith)
        | inr miss ↦ rw miss refl
      ])
  | inr gone ↦
      rw (gone, removed-id_in id kept_ids rows)
        (elim (Bool-cases (a.id == id)) [
          | inl hit ↦
              let own : a.id ≡ id = ground arith in
              let same : id_in kept_ids id ≡ false =
                subst (λ i. id_in kept_ids i ≡ false) own gone in
              rw (hit, same) refl
          | inr miss ↦ rw miss refl
        ])
]

old-absent :
    (n id : ℕ) (rows : List Action) → n ≤ id → AllBelow n rows → exists (has_id id) rows ≡ false
unfolding exists
old-absent n id [] h below = refl
old-absent n id (a ∷ rows) h below = ground (arith, old-absent n id rows h below.1)

or_none : (o : Option Action) → or_else none o ≡ o
unfolding or_else
or_none o = refl

some_or : (x : Action) (o : Option Action) → or_else (some x) o ≡ some x
unfolding or_else
some_or x o = refl

module _ (account_id path_id id : ℕ) (db : Db) (u : Unique same_action db.actions) where
  abbrev existing : List Action
  existing = list_for_path account_id path_id db

  abbrev is_removed : List ℕ → Action → Bool
  is_removed removed_ids a = a.account_id == account_id && id_in removed_ids a.id

  row_of-kept :
      (removed_ids : List ℕ)
      → id_in removed_ids id ≡ false
      → row_of id (remove (is_removed removed_ids) db.actions) ≡ row_of id db.actions
  row_of-kept removed_ids h =
      find-remove (has_id id) (is_removed removed_ids) false
        (λ a hit.
          let own : a.id ≡ id = ground arith in
          let stays = subst (λ i. id_in removed_ids i ≡ false) (sym own) h in ground (arith, stays))
        db.actions

  row_of-removed :
      (removed_ids : List ℕ) (y : Action)
      → row_of id existing ≡ some y
      → id_in removed_ids id ≡ true
      → row_of id (remove (is_removed removed_ids) db.actions) ≡ none
  row_of-removed removed_ids y e h =
      let there = chain-row_of id account_id path_id db y u e in
      let own : y.id ≡ id = row_of-id id existing y e in
      let mine : is_on_path account_id path_id y ≡ true =
        ground (arith, there, e, row_of-list_for_path id account_id path_id db u) in
      let goes = subst (λ i. id_in removed_ids i ≡ true) (sym own) h in
      find-remove_found (has_id id) (is_removed removed_ids) same_action (λ a b hit. ground arith)
        db.actions y u there (ground (arith, mine, goes))

  module _ (plan : Plan) (good : IsPlan db.next_id existing plan)
      (below : AllBelow db.next_id db.actions) where
    abbrev removed_ids : List ℕ
    removed_ids = ids (select (λ a. not (id_in plan.kept_ids a.id)) existing)

    abbrev stays : Option Action
    stays = if exists (has_id id) existing then none else row_of id db.actions

    abbrev rest : Option Action
    rest = row_of id (remove (is_removed removed_ids) db.actions)

    kept_lem : (o : Option Action) → row_of id plan.updated ≡ o → id_in plan.kept_ids id ≡ is_some o
    kept_lem o e = sym (good.kept id) ∙ exists-find (has_id id) plan.updated ∙ ap is_some e

    updated_row :
        (x : Action)
        → row_of id plan.updated ≡ some x
        → or_else (rewritten_by (row_of id plan.updated) rest) (row_of id plan.created) ≡ some x
    unfolding or_else
    updated_row x up =
        let (y, stood, same) = good.backed id x up in
        let stays_in : id_in removed_ids id ≡ false =
          removed-id_in id plan.kept_ids existing ∙ ground (arith, kept_lem (some x) up) in
        let row : rest ≡ some y =
          row_of-kept removed_ids stays_in ∙ chain-row_of id account_id path_id db y u stood in
        ap (λ o. or_else (rewritten_by o rest) (row_of id plan.created)) up
        ∙ ap (λ o. or_else (map_option (rewritten x) o) (row_of id plan.created)) row
        ∙ ap (λ a. some a) (sym same)

    created_row : (x : Action) → row_of id plan.created ≡ some x → rest ≡ none
    created_row x made = elim (Bool-cases (ltb id db.next_id)) [
      | inl old ↦
          let gone = fresh-absent db.next_id id plan.created (ground arith) good.fresh in
          ground (arith, gone, exists-find (has_id id) plan.created, made)
      | inr new ↦
          find-remove_absent (has_id id) (is_removed removed_ids) db.actions
            (old-absent db.next_id id db.actions (ground arith) below)
    ]

    other_row : row_of id plan.updated ≡ none → rest ≡ stays
    other_row gone = elim (Option-cases (row_of id existing)) [
      | inl off ↦
          let absent : exists (has_id id) existing ≡ false =
            exists-find (has_id id) existing ∙ ap is_some off in
          rw absent
            (row_of-kept removed_ids (removed-id_in id plan.kept_ids existing ∙ rw absent refl))
      | inr (y, on) ↦
          let present : exists (has_id id) existing ≡ true =
            exists-find (has_id id) existing ∙ ap is_some on in
          rw present (
            row_of-removed removed_ids y on
              (removed-id_in id plan.kept_ids existing ∙ rw (present, kept_lem none gone) refl))
    ]

    -- The row before the renumbering: from the plan, or as before, if it was not on the path.
    rows_lem :
        or_else (rewritten_by (row_of id plan.updated) rest) (row_of id plan.created)
        ≡ or_else (row_of id plan.ordered) stays
    unfolding or_else
    rows_lem = elim (Option-cases (row_of id plan.updated)) [
      | inr (x, up) ↦
          updated_row x up
          ∙ sym (
              ap (λ o. or_else o stays)
                (good.whole id ∙ ap (λ o. or_else o (row_of id plan.created)) up))
      | inl gone ↦
          ap (λ o. or_else (rewritten_by o rest) (row_of id plan.created)) gone
          ∙ elim (Option-cases (row_of id plan.created)) [
            | inr (x, made) ↦
                ap (λ o. or_else o (row_of id plan.created)) (created_row x made)
                ∙ made
                ∙ sym (
                    ap (λ o. or_else o stays)
                      (good.whole id ∙ ap (λ o. or_else o (row_of id plan.created)) gone ∙ made))
            | inl unmade ↦
                ap (or_else rest) unmade
                ∙ or_else-none rest
                ∙ other_row gone
                ∙ sym (
                    ap (λ o. or_else o stays)
                      (good.whole id ∙ ap (λ o. or_else o (row_of id plan.created)) gone ∙ unmade))
          ]
    ]

    -- The table after the transaction: the rows of the plan with the ranks of their places, no other
    -- row of the path, and every row that was not on the path as before.
    pub row_of-apply_plan :
        (merge : ℕ → ℕ → Option Config → Option Config) (known : ℕ → Bool)
        → row_of id (apply_plan merge known account_id path_id removed_ids plan db).actions
          ≡ or_else (row_of id (ranked 0 plan.ordered)) stays
    unfolding apply_plan clear_digest_windows
    row_of-apply_plan merge known =
        row_of-renumber id plan.ordered _ good.distinct
          (λ x e. refl-IsRow _ x (base ∙ ap (λ o. or_else o stays) e ∙ or_some x))
        ∙ elim (Option-cases (row_of id plan.ordered)) [
          | inr (x, e) ↦
              or_else-some (row_of id (ranked 0 plan.ordered)) _ stays
                (ranked-is_some id plan.ordered x e)
          | inl gone ↦
              ap (or_else (row_of id (ranked 0 plan.ordered)))
                (base ∙ ap (λ o. or_else o stays) gone ∙ none_or)
        ]
      where
        cleared : Db
        cleared =
            clear_digest_windows account_id (removed_ids ++ plan.windows_to_clear)
              (record db { actions = remove (is_removed removed_ids) db.actions })

        base :
            row_of id ((write_configs plan.updated cleared).actions ++ plan.created)
            ≡ or_else (row_of id plan.ordered) stays
        base =
            find-append (has_id id) (write_configs plan.updated cleared).actions plan.created
            ∙ ap (λ o. or_else o (row_of id plan.created))
                (row_of-write_configs id plan.updated cleared good.distinct_updated)
            ∙ rows_lem

        or_some : (x : Action) → or_else (some x) stays ≡ some x
        or_some x = some_or x stays

        none_or : or_else none stays ≡ stays
        none_or = or_none stays
