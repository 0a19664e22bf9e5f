-- ===== src/Watches/Chain/Edits.antt =====
-- The writes of apps/core/watches/services/watches/_actions.py: `add`, `set_config`, `remove` and
-- `_renumber`. What the registry makes of a submitted config is an argument, `none` where it raises;
-- whether the path's lock was acquired is one too.
pub mod Ranked
pub mod Rows
pub mod Placed
use openmagpie.Prelude.{
  ℕ, zero, suc, ◌+◌, Bool, true, false, not, ◌&&◌, Option, none, some, List, [], ◌∷◌, ◌++◌, ltb,
  ◌==◌, if◌then◌else◌, length, update, remove,
}
use openmagpie.Watches.Enums.{Cadence, digest}
use openmagpie.Watches.Model.{Action, Config, delivery, Db}
use openmagpie.Watches.Windows.{clear_digest_windows}
use openmagpie.Watches.Chain.{list_for_path, count_for_path}

-- What an edit comes to: the row in memory, or an exception.
pub data Edit : Type 0 where
  edited : Action → Edit
  contended out_of_scope invalid_config : Edit

-- `bulk_update(ordered, ["rank"])` with the ranks from `start` on, by the rows' ids.
unfoldable pub write_ranks : (start : ℕ) → List Action → Db → Db
write_ranks start [] db = db
write_ranks start (row ∷ rows) db = write_ranks (suc start) rows (record db {
  actions = update (λ a. row.id == a.id) (λ a. record a { rank = start }) db.actions;
})

-- `max((row.rank for row in ordered), default=0)`.
unfoldable pub max_rank : ℕ → List Action → ℕ
max_rank most [] = most
max_rank most (row ∷ rows) = max_rank (if ltb most row.rank then row.rank else most) rows

-- `_renumber`: past the greatest rank, then dense.
unfoldable pub renumber : List Action → Db → Db
unfolding write_ranks max_rank
renumber ordered db = write_ranks 0 ordered (write_ranks (max_rank 0 ordered + 1) ordered db)

-- `chain.insert(at, row)`: past the end it appends.
unfoldable pub insert_at : ℕ → Action → List Action → List Action
insert_at zero row chain = row ∷ chain
insert_at (suc at) row [] = row ∷ []
insert_at (suc at) row (x ∷ chain) = x ∷ insert_at at row chain

-- `len(chain)` without a rank, else `max(0, min(rank, len(chain)))`; a negative rank is as 0.
abbrev pub position : Option ℕ → ℕ → ℕ
position none len = len
position (some rank) len = if ltb rank len then rank else len

abbrev pub is_digest : Config → Bool
is_digest (delivery digest interval_seconds) = true
is_digest _ = false

module _ (account_id : ℕ) where
  abbrev pub new_action : (id path_id kind : ℕ) → Config → (rank : ℕ) → Action
  new_action id path_id kind config rank = record {
    id = id;
    account_id = account_id;
    path_id = path_id;
    kind = kind;
    config = config;
    rank = rank;
  }

  -- The transaction of `add`, and its row after the renumbering.
  unfoldable pub insert_action : (path_id kind : ℕ) → Config → Option ℕ → Db → Edit × Db
  unfolding renumber insert_at
  insert_action path_id kind config rank db =
      let chain = list_for_path account_id path_id db in
      let at = position rank (length chain) in
      let created = new_action db.next_id path_id kind config (length chain + 1) in
      (
        edited (record created { rank = at }),
        renumber (insert_at at created chain)
            (record db { actions = db.actions ++ created ∷ []; next_id = suc db.next_id }),
      )

  unfoldable pub add_action :
      (path_id kind : ℕ) (config : Option Config) (rank : Option ℕ) (dry_run acquired : Bool)
      → Db
      → Edit × Db
  unfolding insert_action
  add_action path_id kind none rank dry_run acquired db = (invalid_config, db)
  add_action path_id kind (some config) rank dry_run acquired db =
      if dry_run
      then (
        edited (
            new_action 0 path_id kind config
              (position rank (count_for_path account_id path_id db))),
        db,
      )
      else if acquired
      then insert_action path_id kind config rank db
      else (contended, db)

  -- The transaction of `set_config`.
  unfoldable pub save_config : Action → (kind : ℕ) → Config → Db → Db
  save_config action kind config db =
      let saved = record db {
        actions =
            update (λ a. action.id == a.id) (λ a. record a { kind = kind; config = config })
              db.actions;
      } in
      if is_digest config then saved else clear_digest_windows account_id (action.id ∷ []) saved

  unfoldable pub merge_action :
      Action → (kind : ℕ) → Option Config → (dry_run : Bool) → Db → Edit × Db
  unfolding save_config
  merge_action action kind none dry_run db = (invalid_config, db)
  merge_action action kind (some config) dry_run db = (
    edited (record action { kind = kind; config = config }),
    if dry_run then db else save_config action kind config db,
  )

  unfoldable pub set_config :
      Action → (kind : ℕ) → Option Config → (dry_run : Bool) → Db → Edit × Db
  unfolding merge_action
  set_config action kind config dry_run db =
      if action.account_id == account_id
      then merge_action action kind config dry_run db
      else (out_of_scope, db)

  -- The tables of `remove` before the renumbering.
  unfoldable pub delete_action : Action → Db → Db
  delete_action action db =
      clear_digest_windows account_id (action.id ∷ [])
        (record db { actions = remove (λ a. action.id == a.id) db.actions })

  unfoldable pub remove_action : Action → (acquired : Bool) → Db → Edit × Db
  unfolding renumber delete_action
  remove_action action acquired db =
      let deleted = delete_action action db in
      if not (action.account_id == account_id)
      then (out_of_scope, db)
      else if acquired
      then (edited action, renumber (list_for_path account_id action.path_id deleted) deleted)
      else (contended, db)
