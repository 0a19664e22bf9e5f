-- ===== src/Watches/Advance.antt =====
-- apps/core/watches/operations/advance.py: a SUCCEEDED run, or a batch of them, goes on to the next
-- action of the chain. Both run in their caller's transaction.
pub mod Effects
use openmagpie.Prelude.{ℕ, Option, none, some, List, [], ◌∷◌, map}
use openmagpie.Watches.Enums.{Cadence, instant, digest}
use openmagpie.Watches.Model.{Run, Action, Config, delivery, other, invalid, Db}
use openmagpie.Watches.Runs.Enqueue.{enqueue_advance_batch}
use openmagpie.Watches.Windows.{open_window}
use openmagpie.Watches.Chain.{next_in_chain}

-- When runs of an action with this config fall due: now, or at the close of its digest window, which
-- is opened. `none` is the `ValidationError` of `load_config` on an invalid blob.
unfoldable pub schedule : (account_id action_id now : ℕ) → Config → Db → Option (ℕ × Db)
schedule account_id action_id now (delivery digest interval_seconds) db =
    some (open_window account_id action_id interval_seconds now db)
schedule account_id action_id now (delivery instant interval_seconds) db = some (now, db)
schedule account_id action_id now (other blob) db = some (now, db)
schedule account_id action_id now invalid db = none

abbrev pub advance_row : Run → ℕ × ℕ × ℕ
advance_row run = (run.watch_id, run.feed_item_id, run.id)

-- `none` is an exception, which rolls the caller's transaction back.
unfoldable pub enqueue_successor : (account_id now : ℕ) → List Run → Option Action → Db → Option Db
unfolding schedule
enqueue_successor account_id now runs none db = some db
enqueue_successor account_id now runs (some nxt) db =
    elim (schedule account_id nxt.id now nxt.config db) [
      | none ↦ none
      | some (scheduled_at, db') ↦
          some (
            enqueue_advance_batch account_id nxt.id nxt.kind scheduled_at (map advance_row runs)
              db')
    ]

unfoldable pub enqueue_next_batch : (runs : List Run) → Action → (now : ℕ) → Db → Option Db
unfolding enqueue_successor
enqueue_next_batch [] action now db = some db
enqueue_next_batch (run ∷ runs) action now db =
    enqueue_successor run.account_id now (run ∷ runs) (next_in_chain run.account_id action db) db

unfoldable pub enqueue_next : Run → Action → (now : ℕ) → Db → Option Db
unfolding enqueue_next_batch
enqueue_next run action now db = enqueue_next_batch (run ∷ []) action now db
