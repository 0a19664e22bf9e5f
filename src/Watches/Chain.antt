-- ===== src/Watches/Chain.antt =====
-- The reads of apps/core/watches/services/watches/_actions.py that follow a path's chain.
pub mod Order
pub mod Edits
pub mod Replace
use openmagpie.Prelude.{
  ℕ, ◌+◌, ◌<◌, Bool, true, false, ◌&&◌, Option, none, some, List, [], ◌∷◌, ltb, ◌==◌, if◌then◌else◌,
  select, find, count, order_by,
}
use openmagpie.Watches.Model.{Action, Db}

module _ (account_id : ℕ) where
  abbrev pub is_on_path : ℕ → Action → Bool
  is_on_path path_id a = a.account_id == account_id && a.path_id == path_id

  abbrev pub ranks_before : Action → Action → Bool
  ranks_before a b = ltb a.rank b.rank

  abbrev pub ranks_after : Action → Action → Bool
  ranks_after a b = ltb b.rank a.rank

  unfoldable pub list_for_path : ℕ → Db → List Action
  list_for_path path_id db = order_by ranks_before (select (is_on_path path_id) db.actions)

  unfoldable pub count_for_path : ℕ → Db → ℕ
  count_for_path path_id db = count (is_on_path path_id) db.actions

  -- `get`; `none` is `WatchAction.DoesNotExist`.
  unfoldable pub get_action : ℕ → Db → Option Action
  get_action action_id db = find (λ a. a.id == action_id && a.account_id == account_id) db.actions

  -- `.first()`.
  abbrev pub head? : List Action → Option Action
  head? [] = none
  head? (a ∷ as_) = some a

  -- `_adjacent(action, forward=...)`.
  unfoldable pub adjacent : Bool → Action → Db → Option Action
  adjacent true action db = head? (
      order_by ranks_before
        (select (λ a. is_on_path action.path_id a && ltb action.rank a.rank) db.actions))
  adjacent false action db = head? (
      order_by ranks_after
        (select (λ a. is_on_path action.path_id a && ltb a.rank action.rank) db.actions))

  unfoldable pub next_in_chain : Action → Db → Option Action
  unfolding adjacent
  next_in_chain action db = adjacent true action db

  unfoldable pub prev_in_chain : Action → Db → Option Action
  unfolding adjacent
  prev_in_chain action db = adjacent false action db
