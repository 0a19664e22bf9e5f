-- ===== src/Watches/Chain/Edits/Placed.antt =====
-- The table after the edits of a chain in apps/core/watches/services/watches/_actions.py, id by id.
use openmagpie.Prelude.{
  ℕ, ◌≡◌, refl, ◌∙◌, ap, true, false, none, List, [], ◌∷◌, ◌==◌, if◌then◌else◌, arith, find,
  find-remove, remove, Unique, or_else,
}
use openmagpie.Watches.Model.{Action, Run, Db, same_action}
use openmagpie.Watches.Windows.{clear_digest_windows}
use openmagpie.Watches.Runs.Drain.{has_window}
use openmagpie.Watches.Chain.{list_for_path}
use openmagpie.Watches.Chain.Edits.{delete_action, remove_action}
use openmagpie.Watches.Chain.Edits.Ranked.{
  AllBelow, remove_action_lem, list_for_path-Unique, delete_action-Unique, renumber-windows,
  delete_action-has_window,
}
use openmagpie.Watches.Chain.Edits.Rows.{
  has_id, row_of, ranked, row_of-renumber, chain-row_of, refl-IsRow,
}

below-row_of :
    (id n : ℕ) (actions : List Action)
    → AllBelow n actions
    → (n == id) ≡ true
    → row_of id actions ≡ none
unfolding find
below-row_of id n [] h e = refl
below-row_of id n (a ∷ actions) h e = ground (arith, below-row_of id n actions h.1)

row_of-remove :
    (id k : ℕ) (actions : List Action)
    → row_of id (remove (λ a. k == a.id) actions) ≡ (if k == id then none else row_of id actions)
row_of-remove id k actions =
    find-remove (has_id id) (λ a. k == a.id) (k == id) (λ a hit. ground arith) actions

deleted_lem :
    (account_id id : ℕ) (action : Action) (db : Db)
    → let deleted = delete_action account_id action db in
      let rest = record db { actions = remove (λ a. action.id == a.id) db.actions } in
      or_else
        (row_of id (ranked 0 (list_for_path account_id action.path_id deleted)))
        (row_of id deleted.actions)
      ≡ or_else
          (row_of id (ranked 0 (list_for_path account_id action.path_id rest)))
          (if action.id == id then none else row_of id db.actions)
unfolding delete_action clear_digest_windows list_for_path
deleted_lem a id action db =
    ap
      (or_else (
        row_of id (
          ranked 0 (
            list_for_path a action.path_id
              (record db { actions = remove (λ a. action.id == a.id) db.actions })))))
      (row_of-remove id action.id db.actions)

-- When no two actions have one id, after a `remove` of an own action under the lock the action's
-- row is gone. The other rows of its path are in the table with the ranks 0, 1 and so on, in the
-- order that they had; every other row is as before; and no digest window holds back the action's
-- runs.
pub remove_action-row_of :
    (account_id id : ℕ) (action : Action) (db : Db) (r : Run)
    → Unique same_action db.actions
    → action.account_id ≡ account_id
    → r.account_id ≡ account_id
    → r.action_id ≡ action.id
    → let rest = record db { actions = remove (λ a. action.id == a.id) db.actions } in
      let after = (remove_action account_id action true db).1 in
      (row_of id after.actions
        ≡ or_else
            (row_of id (ranked 0 (list_for_path account_id action.path_id rest)))
            (if action.id == id then none else row_of id db.actions))
      × (has_window after.windows r ≡ false)
remove_action-row_of a id action db r u own e f =
    let deleted = delete_action a action db in
    let rest = record db { actions = remove (λ a. action.id == a.id) db.actions } in
    let chain = list_for_path a action.path_id deleted in
    let distinct = delete_action-Unique a action db u in
    rw (remove_action_lem a action db own) (
      row_of-renumber id chain deleted (list_for_path-Unique a action.path_id deleted distinct)
            (λ x e.
              refl-IsRow (row_of id deleted.actions) x
                (chain-row_of id a action.path_id deleted x distinct e))
          ∙ deleted_lem a id action db,
      ap (λ ws. has_window ws r) (renumber-windows chain deleted)
          ∙ delete_action-has_window a action db r e f,
    )
