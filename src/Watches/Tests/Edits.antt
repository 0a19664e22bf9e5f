-- ===== src/Watches/Tests/Edits.antt =====
-- The theorems of the chain edits, at the test deployment.
use openmagpie.Prelude.{
  ℕ, Bool, Option, List, ◌≡◌, refl, true, false, some, [], ◌∷◌, arith, exists, order_by, select,
  none, or_else, find, remove,
}
use openmagpie.Watches.Model.{Config, other, Db}
use openmagpie.Watches.Runs.Drain.{has_window}
use openmagpie.Watches.Chain.{list_for_path}
use openmagpie.Watches.Chain.Edits.{new_action, set_config, remove_action}
use openmagpie.Watches.Chain.Edits.Ranked.{set_config_releases}
use openmagpie.Watches.Chain.Edits.Rows.{row_of, ranked}
use openmagpie.Watches.Chain.Edits.Placed.{remove_action-row_of}
use openmagpie.Watches.Chain.Replace.{ActionInput, replace_chain}
use openmagpie.Watches.Chain.Replace.Replaced.{IsReplaced, replace_chain-IsReplaced}
use openmagpie.Watches.Tests.{db, notify, notify_run}

set_config_releases_example :
    has_window (set_config 1 notify 6 (some (other 3)) false db).1.windows notify_run ≡ false
set_config_releases_example =
    set_config_releases 1 notify 6 (other 3) db notify_run refl refl refl refl

remove_action-row_of_example :
    (row_of 11 (remove_action 1 notify true db).1.actions ≡ none)
    × (has_window (remove_action 1 notify true db).1.windows notify_run ≡ false)
unfolding list_for_path order_by select ranked or_else find remove
remove_action-row_of_example =
    remove_action-row_of 1 11 notify db notify_run (unfold exists in (refl, (refl, tt))) refl refl
      refl

-- The delivery comes first, a new action second, and the judge goes.
abbrev submitted : List ActionInput
submitted =
    record { id = 11; kind = 6; config = 3; masked = true }
    ∷ record { id = 0; kind = 8; config = 4; masked = false }
    ∷ []

abbrev overwrite : ℕ → ℕ → Option Config → Option Config
overwrite kind config prior = some (other config)

abbrev all_known : ℕ → Bool
all_known kind = true

replace_chain-IsReplaced_example :
    IsReplaced overwrite all_known 1 7 10 submitted
      (replace_chain overwrite all_known 1 7 true submitted db)
      db
replace_chain-IsReplaced_example =
    replace_chain-IsReplaced overwrite all_known 1 7 10 true submitted db
      (unfold exists in (refl, (refl, tt))) (omega arith, (omega arith, tt))

abbrev replaced : Db
replaced = (replace_chain overwrite all_known 1 7 true submitted db).1

-- The delivery keeps its id and is rewritten, the judge is gone, and the new action is the second.
replaced_rows :
    (row_of 11 replaced.actions ≡ some (record notify { config = other 3; rank = 0 }))
    × (row_of 10 replaced.actions ≡ none)
    × (row_of 300 replaced.actions ≡ some (new_action 1 300 7 8 (other 4) 1))
unfolding replace_chain find order_by
replaced_rows = (refl, refl, refl)
