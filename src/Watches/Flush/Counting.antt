-- ===== src/Watches/Flush/Counting.antt =====
-- The PENDING runs that a slice of apps/core/watches/operations/digest_flush.py gathers, and their
-- number under the advance.
use openmagpie.Prelude.{
  ℕ, zero, suc, ◌+◌, ◌≡◌, refl, sym, subst, ap, ◌∙◌, Bool, true, false, Option, none, some, List,
  [], ◌∷◌, ◌++◌, map, arith, ◌==◌, exists, count, select, take, order_by, insert_by, All, Unique,
  Bool-cases, Option-cases, inl, inr,
}
use openmagpie.Watches.Enums.{instant, digest}
use openmagpie.Watches.Model.{
  same_action, Settings, Run, Window, Config, delivery, other, invalid, Action, Db,
}
use openmagpie.Watches.Runs.Enqueue.{insert_run, bulk_create, advance_rows, enqueue_advance_batch}
use openmagpie.Watches.Runs.Complete.{is_pending_of, digest_batch}
use openmagpie.Watches.Windows.{open_found, open_window}
use openmagpie.Watches.Chain.{next_in_chain}
use openmagpie.Watches.Chain.Order.{In, next_in_chain-IsSuccessor}
use openmagpie.Watches.Advance.{schedule, advance_row, enqueue_successor, enqueue_next_batch}
use openmagpie.Watches.Advance.Effects.{schedule-SameRuns}
use openmagpie.Watches.Flush.Fading.{pending_count, is_owed}

count-append : (p : Run → Bool) (xs ys : List Run) → count p (xs ++ ys) ≡ count p xs + count p ys
unfolding count
count-append p [] ys = omega arith
count-append p (x ∷ xs) ys = ground (arith, count-append p xs ys)

module _ (account_id action_id : ℕ) where
  -- What is inserted for another action does not count.
  bulk_create-count :
      (rows : List Run) (db : Db)
      → All (λ (r : Run). (r.action_id == action_id) ≡ false) rows
      → pending_count account_id action_id (bulk_create rows db).runs
        ≡ pending_count account_id action_id db.runs
  unfolding bulk_create
  bulk_create-count [] db h = refl
  bulk_create-count (r ∷ rows) db h = bulk_create-count rows (insert_run r db) h.1 ∙ inserted
    where
      inserted :
          pending_count account_id action_id (insert_run r db).runs
          ≡ pending_count account_id action_id db.runs
      inserted =
          unfold insert_run in
          unfold count in
          ground (
            arith,
            h.0,
            count-append (is_pending_of account_id action_id) db.runs
                (record r { id = db.next_id } ∷ []),
          )

  advance_rows-other :
      (nxt kind t : ℕ) (rows : List (ℕ × ℕ × ℕ))
      → (nxt == action_id) ≡ false
      → All
          (λ (r : Run). (r.action_id == action_id) ≡ false)
          (advance_rows account_id nxt kind t rows)
  unfolding advance_rows
  advance_rows-other nxt kind t [] h = tt
  advance_rows-other nxt kind t ((w, f, p) ∷ rows) h = (h, advance_rows-other nxt kind t rows h)

  -- An advance to another action leaves the count.
  enqueue_successor-count :
      (now : ℕ) (runs : List Run) (nxt : Action) (db db' : Db)
      → (nxt.id == action_id) ≡ false
      → enqueue_successor account_id now runs (some nxt) db ≡ some db'
      → pending_count account_id action_id db'.runs ≡ pending_count account_id action_id db.runs
  unfolding enqueue_successor enqueue_advance_batch
  enqueue_successor-count now runs nxt db db' o e =
      elim (Option-cases (schedule account_id nxt.id now nxt.config db)) [
        | inl broken ↦ absurd (ground arith)
        | inr ((t, scheduled), ok) ↦
            let rows = advance_rows account_id nxt.id nxt.kind t (map advance_row runs) in
            let same : bulk_create rows scheduled ≡ db' = ground arith in
            let old : scheduled.runs ≡ db.runs =
              (schedule-SameRuns account_id nxt.id now nxt.config db ok).runs in
            ap (λ (d : Db). pending_count account_id action_id d.runs) (sym same)
            ∙ bulk_create-count rows scheduled (advance_rows-other nxt.id nxt.kind t _ o)
            ∙ ap (pending_count account_id action_id) old
      ]

insert_run-actions : (r : Run) (db : Db) → (insert_run r db).actions ≡ db.actions
unfolding insert_run
insert_run-actions r db = ground arith

bulk_create-actions : (rows : List Run) (db : Db) → (bulk_create rows db).actions ≡ db.actions
unfolding bulk_create
bulk_create-actions [] db = refl
bulk_create-actions (r ∷ rows) db = bulk_create-actions rows _ ∙ insert_run-actions r db

open_found-actions :
    (account_id action_id close : ℕ) (o : Option Window) (db : Db)
    → (open_found account_id action_id close o db).1.actions ≡ db.actions
unfolding open_found
open_found-actions a c close none db = refl
open_found-actions a c close (some w) db = ground arith

schedule-actions :
    (account_id action_id now : ℕ) (config : Config) (db : Db) {t : ℕ} {db' : Db}
    → schedule account_id action_id now config db ≡ some (t, db')
    → db'.actions ≡ db.actions
unfolding schedule open_window
schedule-actions a c now (delivery digest i) db {t} {db'} e =
    let same : (open_window a c i now db).1 ≡ db' = ground arith in
    ap (λ (d : Db). d.actions) (sym same) ∙ open_found-actions a c (now + i) _ db
schedule-actions a c now (delivery instant i) db e = ground arith
schedule-actions a c now (other blob) db e = ground arith
schedule-actions a c now invalid db e = cc

enqueue_successor-actions :
    (account_id now : ℕ) (runs : List Run) (o : Option Action) (db db' : Db)
    → enqueue_successor account_id now runs o db ≡ some db'
    → db'.actions ≡ db.actions
unfolding enqueue_successor enqueue_advance_batch
enqueue_successor-actions a now runs none db db' e = ground arith
enqueue_successor-actions a now runs (some nxt) db db' e =
    elim (Option-cases (schedule a nxt.id now nxt.config db)) [
      | inl broken ↦ absurd (ground arith)
      | inr ((t, scheduled), ok) ↦
          let rows = advance_rows a nxt.id nxt.kind t (map advance_row runs) in
          let same : bulk_create rows scheduled ≡ db' = ground arith in
          ap (λ (d : Db). d.actions) (sym same)
          ∙ bulk_create-actions rows scheduled
          ∙ schedule-actions a nxt.id now nxt.config db ok
    ]

In-exists :
    (x y : Action) (xs : List Action)
    → In y xs
    → same_action x y ≡ true
    → exists (same_action x) xs ≡ true
unfolding exists
In-exists x y (z ∷ xs) (inl e) h = ground (arith, subst (λ w. same_action x w ≡ true) (sym e) h)
In-exists x y (z ∷ xs) (inr i) h = ground (arith, In-exists x y xs i h)
In-exists x y [] i h = absurd i

Unique-In :
    (x y : Action) (xs : List Action)
    → Unique same_action xs
    → In x xs
    → In y xs
    → same_action x y ≡ true
    → x ≡ y
Unique-In x y (z ∷ xs) u (inl e) (inl f) h = sym e ∙ f
Unique-In x y (z ∷ xs) u (inl e) (inr j) h =
    absurd (ground (arith, u.0, In-exists z y xs j (subst (λ w. same_action w y ≡ true) (sym e) h)))
Unique-In x y (z ∷ xs) u (inr i) (inl f) h = absurd (
    ground
      (arith, u.0, In-exists z x xs i (subst (λ w. same_action w x ≡ true) (sym f) (ground arith))))
Unique-In x y (z ∷ xs) u (inr i) (inr j) h = Unique-In x y xs u.1 i j h
Unique-In x y [] u i j h = absurd i

-- An advance of pending runs of the action, a row whose key is unique, leaves the number of its
-- pending runs, and the actions.
pub enqueue_next_batch-count :
    (run : Run) (runs : List Run) (action : Action) (now : ℕ) (db db' : Db)
    → Unique same_action db.actions
    → In action db.actions
    → enqueue_next_batch (run ∷ runs) action now db ≡ some db'
    → (pending_count run.account_id action.id db'.runs
        ≡ pending_count run.account_id action.id db.runs)
      × (db'.actions ≡ db.actions)
unfolding enqueue_next_batch
enqueue_next_batch-count run runs action now db db' u i e = (
  elim (Option-cases (next_in_chain run.account_id action db)) [
    | inl last ↦
        let e' =
          subst (λ o. enqueue_successor run.account_id now (run ∷ runs) o db ≡ some db') last e in
        let same : db ≡ db' = unfold enqueue_successor in ground arith in
        ap (λ (d : Db). pending_count run.account_id action.id d.runs) (sym same)
    | inr (nxt, n) ↦
        let (j, o, l, _) = next_in_chain-IsSuccessor run.account_id action nxt db n in
        enqueue_successor-count run.account_id action.id now (run ∷ runs) nxt db db'
          (elim (Bool-cases (nxt.id == action.id)) [
            | inl clash ↦
                let same : nxt ≡ action = Unique-In nxt action db.actions u j i clash in
                absurd (omega (arith, l, ap (λ (a : Action). a.rank) same))
            | inr other_id ↦ other_id
          ])
          (subst (λ o. enqueue_successor run.account_id now (run ∷ runs) o db ≡ some db') n e)
  ],
  enqueue_successor-actions run.account_id now (run ∷ runs) _ db db' e,
)

-- The gathered runs are pending runs of the action.
module _ (settings : Settings) (account_id action_id : ℕ) where
  abbrev pub Owed : List Run → Run → Type 0
  Owed rs r =
      (is_pending_of account_id action_id r ≡ true)
      × (exists (is_owed account_id action_id r.id) rs ≡ true)

  abbrev pub AllOwed : Db → List Run → Type 0
  AllOwed db = All (Owed db.runs)

  Owed-later : (x : Run) (rs : List Run) (ys : List Run) → All (Owed rs) ys → All (Owed (x ∷ rs)) ys
  unfolding exists
  Owed-later x rs [] h = tt
  Owed-later x rs (y ∷ ys) h = ((h.0.0, ground (arith, h.0.1)), Owed-later x rs ys h.1)

  select-Owed : (rs : List Run) → All (Owed rs) (select (is_pending_of account_id action_id) rs)
  unfolding select exists
  select-Owed [] = tt
  select-Owed (x ∷ rs) = elim (Bool-cases (is_pending_of account_id action_id x)) [
    | inl hit ↦ rw hit ((hit, ground (arith, hit)), Owed-later x rs _ (select-Owed rs))
    | inr miss ↦ rw miss (Owed-later x rs _ (select-Owed rs))
  ]

All-insert_by :
    (P : Run → Type 0) (before : Run → Run → Bool) (x : Run) (ys : List Run)
    → P x
    → All P ys
    → All P (insert_by before x ys)
unfolding insert_by
All-insert_by P before x [] p h = (p, tt)
All-insert_by P before x (y ∷ ys) p h =
    ground (arith, p, h.0, h.1, All-insert_by P before x ys p h.1)

All-order_by :
    (P : Run → Type 0) (before : Run → Run → Bool) (xs : List Run)
    → All P xs
    → All P (order_by before xs)
unfolding order_by
All-order_by P before [] h = tt
All-order_by P before (x ∷ xs) h = All-insert_by P before x _ h.0 (All-order_by P before xs h.1)

All-take : (P : Run → Type 0) (n : ℕ) (xs : List Run) → All P xs → All P (take n xs)
All-take P zero xs h = tt
All-take P (suc n) [] h = tt
All-take P (suc n) (x ∷ xs) h = (h.0, All-take P n xs h.1)

pub digest_batch-AllOwed :
    (settings : Settings) (account_id action_id : ℕ) (db : Db)
    → AllOwed settings account_id action_id db (digest_batch settings account_id action_id db)
unfolding digest_batch
digest_batch-AllOwed settings a c db =
    All-take _ settings.digest_max_batch_items _
      (All-order_by _ _ _ (select-Owed settings a c db.runs))
