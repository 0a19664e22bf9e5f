-- ===== src/Watches/Deliveries.antt =====
-- `record` of apps/core/watches/services/deliveries.py.
use openmagpie.Prelude.{ℕ, suc, [], ◌∷◌, ◌++◌}
use openmagpie.Watches.Enums.{RunState, DeliveryState, Cadence, Message}
use openmagpie.Watches.Model.{Call, Delivery, Db}

-- `_OUTCOME_TO_DELIVERY`, with its default.
unfoldable pub delivery_state : RunState → DeliveryState
delivery_state RunState.succeeded = DeliveryState.succeeded
delivery_state RunState.errored = DeliveryState.errored
delivery_state RunState.failed = DeliveryState.failed
delivery_state _ = DeliveryState.errored

unfoldable pub delivery_error : DeliveryState → Message → Message
delivery_error DeliveryState.succeeded error = Message.blank
delivery_error _ error = error

-- The new row's id, and the tables with the row.
unfoldable pub record_delivery :
    (account_id watch_id action_id : ℕ)
    → Cadence
    → Call
    → RunState
    → Message
    → (attempt now : ℕ) → Db
    → ℕ × Db
unfolding delivery_state delivery_error
record_delivery account_id watch_id action_id cadence call outcome_state error attempt now db =
    (db.next_id, record db { deliveries = db.deliveries ++ row ∷ []; next_id = suc db.next_id })
  where
    row : Delivery
    row = record {
      id = db.next_id;
      account_id = account_id;
      watch_id = watch_id;
      action_id = action_id;
      cadence = cadence;
      call = call;
      state = delivery_state outcome_state;
      attempt = attempt;
      error = delivery_error (delivery_state outcome_state) error;
      started_at = now;
      completed_at = now;
    }
