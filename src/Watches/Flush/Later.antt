-- ===== src/Watches/Flush/Later.antt =====
-- The tables after some writes of a slice of apps/core/watches/operations/digest_flush.py: the actions,
-- and which runs are still PENDING.
use openmagpie.Prelude.{
  ℕ, ◌≡◌, refl, sym, subst, ◌∙◌, true, false, some, List, [], ◌∷◌, arith, exists,
}
use openmagpie.Watches.Enums.{RunState, pending, errored, state_eq, Message, item_gone}
use openmagpie.Watches.Model.{Run, Db}
use openmagpie.Watches.Runs.Complete.{complete_batch, finish, id_in}
use openmagpie.Watches.Windows.{close_if_drained}
use openmagpie.Watches.Drain.Outcome.{IsAudit}
use openmagpie.Watches.Flush.{complete_gone}
use openmagpie.Watches.Flush.Fading.{
  is_owed, FadesRow, Fades, Fades-refl, Fades-trans, complete_batch-cleared, complete_batch-Fades,
  complete_chunks-actions,
}

-- The tables have the same actions, and a pending run of `old` is one that faded or is still there.
pub record IsLater (old new : Db) : Type 0 where
  pub fades : Fades old.runs new.runs
  pub actions : new.actions ≡ old.actions

pub close-actions :
    (account_id action_id : ℕ) (db : Db)
    → (close_if_drained account_id action_id db).1.actions ≡ db.actions
unfolding close_if_drained
close-actions a c db = ground arith

pub close-runs :
    (account_id action_id : ℕ) (db : Db)
    → (close_if_drained account_id action_id db).1.runs ≡ db.runs
unfolding close_if_drained
close-runs a c db = ground arith

module _ (state : RunState) (result : ℕ) (error : Message) (delivery_id kind now : ℕ)
    (done : state_eq state pending ≡ false) where
  abbrev write : Run → Run
  write = finish state result error delivery_id kind (some now) now

  write-FadesRow : (r : Run) → FadesRow r (write r)
  write-FadesRow r = record {
    id = refl;
    account_id = refl;
    action_id = refl;
    state = λ h. ground arith;
  }

  pub complete_batch-IsLater :
      (account_id : ℕ) (ids : List ℕ) (db : Db)
      → IsLater db (complete_batch account_id ids state result error delivery_id kind now db).1
  unfolding complete_batch
  complete_batch-IsLater a ids db = record {
    fades = complete_batch-Fades a 0 write write-FadesRow (λ r. done) ids db;
    actions = complete_chunks-actions a 0 write _ 0 db;
  }

  pub complete_batch_clears :
      (account_id action_id i : ℕ) (ids : List ℕ) (db : Db)
      → id_in ids i ≡ true
      → exists
          (is_owed account_id action_id i)
          (complete_batch account_id ids state result error delivery_id kind now db).1.runs
        ≡ false
  unfolding complete_batch
  complete_batch_clears a c i ids db o =
      complete_batch-cleared a c write write-FadesRow (λ r. done) i ids db o

pub IsLater-trans : {a b c : Db} → IsLater a b → IsLater b c → IsLater a c
IsLater-trans {a} {b} {c} f g = record {
  fades = Fades-trans a.runs b.runs c.runs f.fades g.fades;
  actions = g.actions ∙ f.actions;
}

pub complete_gone-IsLater :
    (account_id : ℕ) (ids : List ℕ) (now : ℕ) (db : Db)
    → IsLater db (complete_gone account_id ids now db)
unfolding complete_gone
complete_gone-IsLater a [] now db = record { fades = Fades-refl db.runs; actions = refl }
complete_gone-IsLater a (id ∷ ids) now db =
    complete_batch-IsLater errored 0 item_gone 0 0 now refl a (id ∷ ids) db

pub IsAudit-IsLater : {a b : Db} → IsAudit a b → IsLater a b
IsAudit-IsLater {a} {b} e = record {
  fades = subst (Fades a.runs) (sym e.runs) (Fades-refl a.runs);
  actions = e.actions;
}
