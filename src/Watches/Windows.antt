-- ===== src/Watches/Windows.antt =====
-- apps/core/watches/services/digest.py: `WatchDigestWindowService` and `WatchDigestWindowGlobal`.
-- An operation runs under the row lock of its window, so it is one step.
pub mod Laws
use openmagpie.Prelude.{
  ℕ, ◌+◌, Bool, true, false, ◌&&◌, Option, none, some, List, [], ◌∷◌, ◌++◌, ◌==◌, if◌then◌else◌,
  exists, select, update, remove, find, order_by, ltb,
}
use openmagpie.Watches.Model.{Window, Db}
use openmagpie.Watches.Runs.Drain.{at_most, before}
use openmagpie.Watches.Runs.Complete.{is_pending_of, id_in}

-- The window row of an action.
abbrev pub is_window : (account_id action_id : ℕ) → Window → Bool
is_window account_id action_id w = w.account_id == account_id && w.action_id == action_id

abbrev pub set_close : Option ℕ → Window → Window
set_close close_at w = record w { close_at = close_at }

-- `get_or_create` with a NULL `close_at`, and the save that opens a window which is not open. The
-- clauses are: no row, a closed window, an open one.
unfoldable pub open_found : (account_id action_id close : ℕ) → Option Window → Db → ℕ × Db
open_found account_id action_id close none db =
    (close, record db { windows = db.windows ++ new ∷ [] })
  where
    new : Window
    new = record { account_id = account_id; action_id = action_id; close_at = some close }
open_found account_id action_id close (some w) db = elim w.close_at [
  | none ↦ (
    close,
    record db {
      windows = update (is_window account_id action_id) (set_close (some close)) db.windows;
    },
  )
  | some t ↦ (t, db)
]

unfoldable pub open_window : (account_id action_id interval_seconds now : ℕ) → Db → ℕ × Db
unfolding open_found
open_window account_id action_id interval_seconds now db =
    open_found account_id action_id (now + interval_seconds)
      (find (is_window account_id action_id) db.windows) db

unfoldable pub close_if_drained : (account_id action_id : ℕ) → Db → Bool × Db
close_if_drained account_id action_id db =
    if exists (is_window account_id action_id) db.windows
    then (if exists (is_pending_of account_id action_id) db.runs then (false, db) else (
      true,
      record db { windows = update (is_window account_id action_id) (set_close none) db.windows },
    ))
    else (true, db)

-- `iter_due`, with its `order_by("close_at")`.
abbrev pub closes_before : Window → Window → Bool
closes_before a b = elim b.close_at [ none ↦ false | some t ↦ before a.close_at t ]

unfoldable pub iter_due : ℕ → Db → List Window
iter_due ts db = order_by closes_before (select (λ w. at_most w.close_at ts) db.windows)

-- `_clear_digest_windows` of apps/core/watches/services/watches/_actions.py.
unfoldable pub clear_digest_windows : (account_id : ℕ) → List ℕ → Db → Db
clear_digest_windows account_id action_ids db = record db {
  windows = remove (λ w. w.account_id == account_id && id_in action_ids w.action_id) db.windows;
}
