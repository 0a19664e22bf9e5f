-- ===== src/Watches/Runs/Complete.antt =====
-- `completion_ts` of apps/core/watches/services/runs/_common.py, `complete` of _service.py, and the
-- batch operations of apps/core/watches/services/_run_batches.py.
use openmagpie.Prelude.{
  ℕ, ◌+◌, Bool, not, ◌&&◌, ◌||◌, Option, none, some, List, [], ◌∷◌, ltb, leb, ◌==◌, if◌then◌else◌,
  exists, select, count, update, order_by, take, batched,
}
use openmagpie.Watches.Enums.{RunState, Message, state_eq, is_terminal}
use openmagpie.Watches.Model.{Settings, Run, Db}

-- `ID_IN_CHUNK` of apps/core/common/db.py.
abbrev pub id_in_chunk : ℕ
id_in_chunk = 500

-- `id__in=chunk`.
unfoldable pub id_in : List ℕ → ℕ → Bool
id_in ids id = exists (λ i. i == id) ids

-- `result or {}` is the blob itself; a blank delivery id or kind leaves the column.
abbrev pub or_keep : ℕ → ℕ → ℕ
or_keep new old = if new == 0 then old else new

-- The row that the guarded UPDATE of `complete` matches.
abbrev pub holds_claim : Run → Run → Bool
holds_claim run r =
    r.id == run.id && state_eq r.state RunState.running && r.attempts == run.attempts

abbrev pub finish :
    (state : RunState) (result : ℕ) (error : Message) (delivery_id kind : ℕ)
    (completed_at : Option ℕ) (now : ℕ)
    → Run
    → Run
finish state result error delivery_id kind completed_at now r = record r {
  state = state;
  result = result;
  error = error;
  completed_at = completed_at;
  updated_at = now;
  delivery_id = or_keep delivery_id r.delivery_id;
  kind = or_keep kind r.kind;
}

-- What became of `complete`: out of the account's scope is a `ValueError`; a lost claim is `None`.
pub data Completion : Type 0 where
  out_of_scope lost : Completion
  won : Run → Completion

-- The PENDING runs of an action.
abbrev pub is_pending_of : ℕ → ℕ → Run → Bool
is_pending_of account_id action_id r =
    r.account_id == account_id && r.action_id == action_id && state_eq r.state RunState.pending

-- `order_by("attempts", "id")`.
abbrev pub tried_less : Run → Run → Bool
tried_less a b = ltb a.attempts b.attempts || (a.attempts == b.attempts && ltb a.id b.id)

unfoldable pub digest_pending_count : (account_id action_id : ℕ) → Db → ℕ
digest_pending_count account_id action_id db = count (is_pending_of account_id action_id) db.runs

abbrev pub is_pending_in : ℕ → List ℕ → Run → Bool
is_pending_in account_id chunk r =
    id_in chunk r.id && r.account_id == account_id && state_eq r.state RunState.pending

unfoldable pub complete_chunks :
    (account_id : ℕ) (write : Run → Run) → List (List ℕ) → ℕ → Db → ℕ × Db
complete_chunks account_id write [] written db = (written, db)
complete_chunks account_id write (chunk ∷ chunks) written db =
    complete_chunks account_id write chunks
      (written + count (is_pending_in account_id chunk) db.runs)
      (record db { runs = update (is_pending_in account_id chunk) write db.runs })

unfoldable pub complete_batch :
    (account_id : ℕ) (run_ids : List ℕ) (state : RunState) (result : ℕ) (error : Message)
    (delivery_id kind now : ℕ)
    → Db
    → ℕ × Db
complete_batch account_id run_ids state result error delivery_id kind now db =
    complete_chunks account_id (finish state result error delivery_id kind (some now) now)
      (batched run_ids id_in_chunk) 0 db

abbrev pub burn_attempt : ℕ → Run → Run
burn_attempt now r = record r {
  attempts = r.attempts + 1;
  error = Message.transient;
  updated_at = now;
}

abbrev pub exhaust : ℕ → Run → Run
exhaust now r = record r {
  state = RunState.failed;
  error = Message.transient_exhausted;
  completed_at = some now;
  updated_at = now;
}

module _ (settings : Settings) where
  unfoldable pub completion_ts : RunState → ℕ → ℕ → Option ℕ
  completion_ts state attempts now =
      if is_terminal state
        || (state_eq state RunState.failed && leb settings.run_max_attempts attempts)
      then some now
      else none

  -- The row in memory is written as the table's, but for `updated_at`.
  unfoldable pub complete :
      (account_id : ℕ) (run : Run) (state : RunState) (result : ℕ) (error : Message)
      (delivery_id kind now : ℕ)
      → Db
      → Completion × Db
  complete account_id run state result error delivery_id kind now db =
      let ct = completion_ts state run.attempts now in
      let write = finish state result error delivery_id kind ct now in
      if not (run.account_id == account_id)
      then (out_of_scope, db)
      else if exists (holds_claim run) db.runs
      then (
        won (record (write run) { updated_at = run.updated_at }),
        record db { runs = update (holds_claim run) write db.runs },
      )
      else (lost, db)

  unfoldable pub digest_batch : (account_id action_id : ℕ) → Db → List Run
  digest_batch account_id action_id db =
      take settings.digest_max_batch_items
        (order_by tried_less (select (is_pending_of account_id action_id) db.runs))

  abbrev pub is_spent_in : ℕ → List ℕ → Run → Bool
  is_spent_in account_id chunk r =
      is_pending_in account_id chunk r && leb settings.run_max_attempts r.attempts

  unfoldable pub fail_chunks : (account_id now : ℕ) → List (List ℕ) → ℕ → Db → ℕ × Db
  fail_chunks account_id now [] exhausted db = (exhausted, db)
  fail_chunks account_id now (chunk ∷ chunks) exhausted db =
      let burned = update (is_pending_in account_id chunk) (burn_attempt now) db.runs in
      fail_chunks account_id now chunks (exhausted + count (is_spent_in account_id chunk) burned)
        (record db { runs = update (is_spent_in account_id chunk) (exhaust now) burned })

  unfoldable pub fail_batch : (account_id : ℕ) (run_ids : List ℕ) (now : ℕ) → Db → ℕ × Db
  fail_batch account_id run_ids now db =
      fail_chunks account_id now (batched run_ids id_in_chunk) 0 db
