-- ===== src/Watches/Chain/Edits/Rows.antt =====
-- The table of apps/core/watches/models/watch_action.py as a map from ids to rows, under the
-- renumbering of apps/core/watches/services/watches/_actions.py.
use openmagpie.Prelude.{
  ℕ, suc, ◌+◌, ◌≡◌, refl, sym, ◌∙◌, ap, subst, Bool, true, false, ◌||◌, Option, none, some, List,
  [], ◌∷◌, ◌==◌, if◌then◌else◌, arith, Bool-cases, Option-cases, inl, inr, find, exists,
  exists-find, exists_ext, find-update, find-select, find-filter, find-true, order_by, insert_by,
  Unique, Unique-select, or_else, is_some,
}
use mathlib.Core.Option.{map as map_option}
use openmagpie.Watches.Model.{Action, Db, same_action}
use openmagpie.Watches.Chain.{is_on_path, ranks_before, list_for_path}
use openmagpie.Watches.Chain.Edits.{write_ranks, max_rank, renumber}
use openmagpie.Watches.Chain.Edits.Ranked.{set_rank, exists-order_by}

abbrev pub has_id : ℕ → Action → Bool
has_id id a = a.id == id

abbrev pub row_of : ℕ → List Action → Option Action
row_of id rows = find (has_id id) rows

-- The rows with the ranks from `start` on.
unfoldable pub ranked : (start : ℕ) → List Action → List Action
ranked start [] = []
ranked start (x ∷ xs) = set_rank start x ∷ ranked (suc start) xs

-- What the ranks that are written to a row come to.
unfoldable rerank : (start : ℕ) → List Action → ℕ → Option Action → Option Action
rerank start [] id o = o
rerank start (x ∷ xs) id o =
    rerank (suc start) xs id (if x.id == id then map_option (set_rank start) o else o)

-- A row that is another's but for the rank.
abbrev IsRow : Option Action → Action → Type 0
IsRow o x = map_option (set_rank 0) o ≡ some (set_rank 0 x)

pub same_action-has_id :
    (x : Action) (rows : List Action) → exists (same_action x) rows ≡ exists (has_id x.id) rows
same_action-has_id x rows = exists_ext (same_action x) (has_id x.id) (λ a. ground arith) rows

updated_row :
    (x : Action) (start id : ℕ) (o : Option Action)
    → ((a : Action) → o ≡ some a → a.id ≡ id)
    → map_option (λ a. if x.id == a.id then set_rank start a else a) o
      ≡ (if x.id == id then map_option (set_rank start) o else o)
updated_row x start id none own = ground arith
updated_row x start id (some a) own = let same = own a refl in ground arith

pub row_of-id : (id : ℕ) (rows : List Action) (a : Action) → row_of id rows ≡ some a → a.id ≡ id
row_of-id id rows a e = let hit = find-true (has_id id) rows a e in ground arith

row_of-write_ranks :
    (id start : ℕ) (rows : List Action) (db : Db)
    → row_of id (write_ranks start rows db).actions ≡ rerank start rows id (row_of id db.actions)
unfolding write_ranks rerank
row_of-write_ranks id start [] db = refl
row_of-write_ranks id start (x ∷ rows) db =
    row_of-write_ranks id (suc start) rows _
    ∙ ap (rerank (suc start) rows id) (
        find-update (has_id id) (λ a. x.id == a.id) (set_rank start) (λ a. refl) db.actions
        ∙ updated_row x start id (row_of id db.actions) (row_of-id id db.actions))

rerank-absent :
    (start id : ℕ) (rows : List Action) (o : Option Action)
    → exists (has_id id) rows ≡ false
    → rerank start rows id o ≡ o
unfolding rerank exists
rerank-absent start id [] o h = refl
rerank-absent start id (x ∷ rows) o h =
    let miss : (x.id == id) ≡ false = ground arith in
    rw miss (rerank-absent (suc start) id rows o (ground arith))

-- Ranks are all that changes.
set_rank-map :
    (start : ℕ) (b : Bool) (o : Option Action)
    → map_option (set_rank 0) (if b then map_option (set_rank start) o else o)
      ≡ map_option (set_rank 0) o
set_rank-map start true none = refl
set_rank-map start true (some a) = refl
set_rank-map start false o = refl

set_rank-rerank :
    (start id : ℕ) (rows : List Action) (o : Option Action)
    → map_option (set_rank 0) (rerank start rows id o) ≡ map_option (set_rank 0) o
unfolding rerank
set_rank-rerank start id [] o = refl
set_rank-rerank start id (x ∷ rows) o =
    set_rank-rerank (suc start) id rows _ ∙ set_rank-map start (x.id == id) o

IsRow-rank :
    (start : ℕ) (o : Option Action) (x : Action)
    → IsRow o x
    → map_option (set_rank start) o ≡ some (set_rank start x)
IsRow-rank start none x e = absurd (ground arith)
IsRow-rank start (some a) x e = ap (map_option (set_rank start)) e

rerank-ranked :
    (start id : ℕ) (rows : List Action) (o : Option Action)
    → Unique same_action rows
    → ((x : Action) → row_of id rows ≡ some x → IsRow o x)
    → rerank start rows id o ≡ or_else (row_of id (ranked start rows)) o
unfolding rerank ranked find or_else
rerank-ranked start id [] o u same = refl
rerank-ranked start id (x ∷ rows) o u same = elim (Bool-cases (x.id == id)) [
  | inl hit ↦
      let own : x.id ≡ id = ground arith in
      let gone : exists (has_id id) rows ≡ false =
        subst (λ i. exists (has_id i) rows ≡ false) own (sym (same_action-has_id x rows) ∙ u.0) in
      rw hit
        (rerank-absent (suc start) id rows _ gone ∙ IsRow-rank start o x (same x (rw hit refl)))
  | inr miss ↦ rw miss (rerank-ranked (suc start) id rows o u.1 (λ y e. same y (rw miss e)))
]

exists-ranked :
    (start id : ℕ) (rows : List Action)
    → exists (has_id id) (ranked start rows) ≡ exists (has_id id) rows
unfolding ranked exists
exists-ranked start id [] = refl
exists-ranked start id (x ∷ rows) = ap (λ b. (x.id == id) || b) (exists-ranked (suc start) id rows)

pub or_else-some : (a b c : Option Action) → is_some a ≡ true → or_else a b ≡ or_else a c
unfolding or_else
or_else-some none b c h = ground arith
or_else-some (some x) b c h = refl

pub ranked-is_some :
    (id : ℕ) (rows : List Action) (x : Action)
    → row_of id rows ≡ some x
    → is_some (row_of id (ranked 0 rows)) ≡ true
ranked-is_some id rows x e =
    sym (exists-find (has_id id) (ranked 0 rows))
    ∙ exists-ranked 0 id rows
    ∙ exists-find (has_id id) rows
    ∙ ap is_some e

-- The renumbering of distinct rows that are in the table, but for their ranks: each row of the list
-- is in the table with the rank of its place, and every other one is as it was.
pub row_of-renumber :
    (id : ℕ) (ordered : List Action) (db : Db)
    → Unique same_action ordered
    → ((x : Action) → row_of id ordered ≡ some x → IsRow (row_of id db.actions) x)
    → row_of id (renumber ordered db).actions
      ≡ or_else (row_of id (ranked 0 ordered)) (row_of id db.actions)
unfolding renumber
row_of-renumber id ordered db u same =
    let start = max_rank 0 ordered + 1 in
    let parked = rerank start ordered id (row_of id db.actions) in
    row_of-write_ranks id 0 ordered (write_ranks start ordered db)
    ∙ ap (rerank 0 ordered id) (row_of-write_ranks id start ordered db)
    ∙ rerank-ranked 0 id ordered parked u
        (λ x e. set_rank-rerank start id ordered (row_of id db.actions) ∙ same x e)
    ∙ elim (Bool-cases (exists (has_id id) ordered)) [
      | inl there ↦
          or_else-some (row_of id (ranked 0 ordered)) parked (row_of id db.actions)
            (sym (exists-find (has_id id) (ranked 0 ordered)) ∙ exists-ranked 0 id ordered ∙ there)
      | inr gone ↦
          ap (or_else (row_of id (ranked 0 ordered)))
            (rerank-absent start id ordered (row_of id db.actions) gone)
    ]

find-insert_by :
    (q : Action → Bool) (before : Action → Action → Bool) (x : Action) (ys : List Action)
    → (q x ≡ true → exists q ys ≡ false)
    → find q (insert_by before x ys) ≡ (if q x then some x else find q ys)
unfolding find exists insert_by
find-insert_by q before x [] alone = refl
find-insert_by q before x (y ∷ ys) alone = elim (Bool-cases (q x)) [
  | inl hit ↦ let others = alone hit in ground (arith, hit, find-insert_by q before x ys)
  | inr miss ↦ ground (arith, miss, find-insert_by q before x ys)
]

row_of-order_by :
    (id : ℕ) (before : Action → Action → Bool) (xs : List Action)
    → Unique same_action xs
    → row_of id (order_by before xs) ≡ row_of id xs
unfolding order_by find
row_of-order_by id before [] u = refl
row_of-order_by id before (x ∷ xs) u =
    find-insert_by (has_id id) before x (order_by before xs) (λ hit.
      let own : x.id ≡ id = ground arith in
      exists-order_by (has_id id) before xs
      ∙ subst (λ i. exists (has_id i) xs ≡ false) own (sym (same_action-has_id x xs) ∙ u.0))
    ∙ rw (row_of-order_by id before xs u.1) refl

-- The chain of a path is the rows of the table that are on it.
pub row_of-list_for_path :
    (id account_id path_id : ℕ) (db : Db)
    → Unique same_action db.actions
    → row_of id (list_for_path account_id path_id db) ≡ elim (row_of id db.actions) [
      | none ↦ none
      | some x ↦ if is_on_path account_id path_id x then some x else none
    ]
unfolding list_for_path
row_of-list_for_path id a p db u =
    row_of-order_by id (ranks_before a) _ (Unique-select same_action (is_on_path a p) db.actions u)
    ∙ find-select (has_id id) (is_on_path a p) db.actions
    ∙ find-filter (has_id id) (is_on_path a p) same_action (λ x y h k. ground arith) db.actions u

-- A row of the chain is the row of the table.
pub chain-row_of :
    (id account_id path_id : ℕ) (db : Db) (x : Action)
    → Unique same_action db.actions
    → row_of id (list_for_path account_id path_id db) ≡ some x
    → row_of id db.actions ≡ some x
chain-row_of id a p db x u e = elim (Option-cases (row_of id db.actions)) [
  | inl gone ↦ ground (arith, gone, e, row_of-list_for_path id a p db u)
  | inr (y, found) ↦ ground (arith, found, e, row_of-list_for_path id a p db u)
]

pub refl-IsRow : (o : Option Action) (x : Action) → o ≡ some x → IsRow o x
refl-IsRow o x e = ap (map_option (set_rank 0)) e
