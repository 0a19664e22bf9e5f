-- ===== src/Watches/Enums.antt =====
-- packages/openmagpie-schema/src/openmagpie_schema/watch_enums.py and
-- apps/core/watches/run_messages.py.
use openmagpie.Prelude.{ℕ, ◌≡◌, ◌↔◌, Bool, true, false, arith, ◌==◌}

-- `WatchActionRunState`.
pub data RunState : Type 0 where
  pending running succeeded gated failed errored skipped : RunState

-- The columns are compared as strings: two states are equal if their values are.
abbrev pub state_code : RunState → ℕ
state_code pending = 0
state_code running = 1
state_code succeeded = 2
state_code gated = 3
state_code failed = 4
state_code errored = 5
state_code skipped = 6

abbrev pub state_eq : RunState → RunState → Bool
state_eq a b = state_code a == state_code b

state_eq_iff : (a b : RunState) → (state_eq a b ≡ true) ↔ (a ≡ b)
state_eq_iff a b = ground arith

-- `CLAIMABLE_STATES`.
abbrev pub is_claimable : RunState → Bool
is_claimable pending = true
is_claimable failed = true
is_claimable _ = false

-- `TERMINAL_STATES`.
abbrev pub is_terminal : RunState → Bool
is_terminal succeeded = true
is_terminal gated = true
is_terminal errored = true
is_terminal skipped = true
is_terminal _ = false

-- `WatchActionDeliveryState`.
pub data DeliveryState : Type 0 where
  pending succeeded errored failed : DeliveryState

-- `DeliveryCadence`.
pub data Cadence : Type 0 where
  instant digest : Cadence

-- The texts of run_messages.py, by their names; the blank one; and what an action impl reports.
pub data Message : Type 0 where
  blank action_gone item_gone no_executor result_invalid : Message
  transient timed_out timed_out_exhausted transient_exhausted : Message
  backfill_target_gone backfill_watch_gone backfill_timed_out backfill_timed_out_exhausted : Message
  reported : ℕ → Message
