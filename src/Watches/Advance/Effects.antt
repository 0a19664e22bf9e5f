-- ===== src/Watches/Advance/Effects.antt =====
-- What apps/core/watches/operations/advance.py does to the run table.
use openmagpie.Prelude.{
  ℕ, ◌+◌, ◌≡◌, ◌<◌, refl, Bool, true, Option, none, some, List, [], ◌∷◌, map, arith, exists, All,
  Option-cases, inl, inr, subst,
}
use openmagpie.Watches.Enums.{instant, digest}
use openmagpie.Watches.Model.{
  Settings, Run, Action, Window, Config, delivery, other, invalid, Db, same_key, pending_run,
}
use openmagpie.Watches.Runs.Enqueue.{insert_run, bulk_create, advance_rows, enqueue_advance_batch}
use openmagpie.Watches.Runs.Enqueue.Unique.{exists-insert_run}
use openmagpie.Watches.Runs.Sound.{IsSound}
use openmagpie.Watches.Runs.Sound.Batches.{enqueue_advance_batch-IsSound}
use openmagpie.Watches.Windows.{open_found, open_window}
use openmagpie.Watches.Chain.{next_in_chain}
use openmagpie.Watches.Advance.{schedule, advance_row, enqueue_successor, enqueue_next_batch}

-- Two states of the tables with the same runs and the same next id.
pub record SameRuns (a b : Db) : Type 0 where
  pub runs : a.runs ≡ b.runs
  pub next_id : a.next_id ≡ b.next_id

pub SameRuns-IsSound :
    (settings : Settings) {a b : Db} → SameRuns a b → IsSound settings b → IsSound settings a
SameRuns-IsSound settings e s = record {
  consistent = rw e.runs s.consistent;
  keyed = record {
    unique = rw e.runs s.unique;
    ids = rw e.runs s.ids;
    fresh = rw (e.runs, e.next_id) s.fresh;
  };
}

open_found-SameRuns :
    (account_id action_id close : ℕ) (o : Option Window) (db : Db)
    → SameRuns (open_found account_id action_id close o db).1 db
unfolding open_found
open_found-SameRuns a c close none db = record { runs = refl; next_id = refl }
open_found-SameRuns a c close (some w) db = record { runs = ground arith; next_id = ground arith }

open_window-SameRuns :
    (account_id action_id interval now : ℕ) (db : Db)
    → SameRuns (open_window account_id action_id interval now db).1 db
unfolding open_window
open_window-SameRuns a c i now db = open_found-SameRuns a c (now + i) _ db

pub schedule-SameRuns :
    (account_id action_id now : ℕ) (config : Config) (db : Db) {t : ℕ} {db' : Db}
    → schedule account_id action_id now config db ≡ some (t, db')
    → SameRuns db' db
unfolding schedule
schedule-SameRuns a c now (delivery digest i) db {t} {db'} e =
    let same : (open_window a c i now db).1 ≡ db' = ground arith in
    subst (λ d. SameRuns d db) same (open_window-SameRuns a c i now db)
schedule-SameRuns a c now (delivery instant i) db e = record {
  runs = ground arith;
  next_id = ground arith;
}
schedule-SameRuns a c now (other blob) db e = record { runs = ground arith; next_id = ground arith }
schedule-SameRuns a c now invalid db e = cc

module _ (settings : Settings) (open_cap : 0 < settings.run_max_attempts) where
  enqueue_successor-IsSound :
      (account_id now : ℕ) (runs : List Run) (nxt : Option Action) (db db' : Db)
      → enqueue_successor account_id now runs nxt db ≡ some db'
      → IsSound settings db
      → IsSound settings db'
  unfolding enqueue_successor
  enqueue_successor-IsSound a now runs none db db' e s =
      let same : db ≡ db' = ground arith in subst (IsSound settings) same s
  enqueue_successor-IsSound a now runs (some nxt) db db' e s =
      elim (Option-cases (schedule a nxt.id now nxt.config db)) [
        | inl failed ↦ absurd (ground arith)
        | inr ((t, scheduled), ok) ↦
            let same : enqueue_advance_batch a nxt.id nxt.kind t (map advance_row runs) scheduled
                ≡ db' =
              ground arith in
            subst (IsSound settings) same (
              enqueue_advance_batch-IsSound settings a nxt.id nxt.kind t (map advance_row runs)
                scheduled open_cap
                (SameRuns-IsSound settings (schedule-SameRuns a nxt.id now nxt.config db ok) s))
      ]

  -- When the cap on attempts is positive, an advance that does not raise keeps the invariant of
  -- the run table.
  pub enqueue_next_batch-IsSound :
      (runs : List Run) (action : Action) (now : ℕ) (db db' : Db)
      → enqueue_next_batch runs action now db ≡ some db'
      → IsSound settings db
      → IsSound settings db'
  unfolding enqueue_next_batch
  enqueue_next_batch-IsSound [] action now db db' e s =
      let same : db ≡ db' = ground arith in subst (IsSound settings) same s
  enqueue_next_batch-IsSound (run ∷ runs) action now db db' e s =
      enqueue_successor-IsSound run.account_id now (run ∷ runs) _ db db' e s

-- The key of a run of an action on an item, as any run with it.
abbrev run_key : (account_id watch_id action_id feed_item_id : ℕ) → Run
run_key account_id watch_id action_id feed_item_id =
    pending_run account_id watch_id action_id 0 feed_item_id 0 0

-- The table has a run of the action on the item.
abbrev pub has_run : (account_id watch_id action_id feed_item_id : ℕ) → Db → Bool
has_run account_id watch_id action_id feed_item_id db =
    exists (same_key (run_key account_id watch_id action_id feed_item_id)) db.runs

bulk_create-keeps :
    (q : Run) (rs : List Run) (db : Db)
    → exists (same_key q) db.runs ≡ true
    → exists (same_key q) (bulk_create rs db).runs ≡ true
unfolding bulk_create
bulk_create-keeps q [] db h = h
bulk_create-keeps q (r ∷ rs) db h = bulk_create-keeps q rs _ (rw exists-insert_run (ground arith))

-- Each run of the batch has a run of the action after the advance.
abbrev pub AllHave : (account_id action_id : ℕ) → Db → List Run → Type 0
AllHave account_id action_id db =
    All (λ r. has_run account_id r.watch_id action_id r.feed_item_id db ≡ true)

enqueue_advance_batch-AllHave :
    (account_id action_id kind t : ℕ) (runs : List Run) (db : Db)
    → AllHave account_id action_id
        (enqueue_advance_batch account_id action_id kind t (map advance_row runs) db)
        runs
unfolding enqueue_advance_batch bulk_create
enqueue_advance_batch-AllHave a c k t [] db = tt
enqueue_advance_batch-AllHave a c k t (r ∷ rs) db = (
  bulk_create-keeps (run_key a r.watch_id c r.feed_item_id)
      (advance_rows a c k t (map advance_row rs))
      (insert_run (pending_run a r.watch_id c k r.feed_item_id t r.id) db)
      (rw exists-insert_run (ground arith)),
  enqueue_advance_batch-AllHave a c k t rs _,
)

enqueue_successor-AllHave :
    (account_id now : ℕ) (runs : List Run) (nxt : Action) (db db' : Db)
    → enqueue_successor account_id now runs (some nxt) db ≡ some db'
    → AllHave account_id nxt.id db' runs
unfolding enqueue_successor
enqueue_successor-AllHave a now runs nxt db db' e =
    elim (Option-cases (schedule a nxt.id now nxt.config db)) [
      | inl failed ↦ absurd (ground arith)
      | inr ((t, scheduled), ok) ↦
          let same : enqueue_advance_batch a nxt.id nxt.kind t (map advance_row runs) scheduled
              ≡ db' =
            ground arith in
          subst (λ d. AllHave a nxt.id d runs) same
            (enqueue_advance_batch-AllHave a nxt.id nxt.kind t runs scheduled)
    ]

-- After an advance of a batch that does not raise, where the action has a next one in its chain,
-- every run of the batch has a run of that next action on its item.
pub enqueue_next_batch-AllHave :
    (run : Run) (runs : List Run) (action nxt : Action) (now : ℕ) (db db' : Db)
    → next_in_chain run.account_id action db ≡ some nxt
    → enqueue_next_batch (run ∷ runs) action now db ≡ some db'
    → AllHave run.account_id nxt.id db' (run ∷ runs)
unfolding enqueue_next_batch
enqueue_next_batch-AllHave run runs action nxt now db db' n e =
    enqueue_successor-AllHave run.account_id now (run ∷ runs) nxt db db'
      (subst (λ o. enqueue_successor run.account_id now (run ∷ runs) o db ≡ some db') n e)
