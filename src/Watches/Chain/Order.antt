-- ===== src/Watches/Chain/Order.antt =====
-- The neighbours of an action in its chain, by rank and not by position: `_adjacent` of
-- apps/core/watches/services/watches/_actions.py.
use openmagpie.Prelude.{
  ℕ, ◌≤◌, ◌<◌, ◌≡◌, refl, Bool, true, false, ◌&&◌, Option, none, some, sym, subst, List, [], ◌∷◌,
  arith, ltb, ◌⊎◌, inl, inr, if◌then◌else◌, select, order_by, insert_by, All, Bool-cases,
  Option-cases,
}
use openmagpie.Watches.Model.{Action, Db}
use openmagpie.Watches.Chain.{
  is_on_path, ranks_before, ranks_after, head?, next_in_chain, prev_in_chain,
}

-- `a` is a row of the table.
abbrev pub In : Action → List Action → Type 0
In a [] = ⊥
In a (x ∷ xs) = (x ≡ a) ⊎ In a xs

All-In : (P : Action → Type 0) (a : Action) (xs : List Action) → All P xs → In a xs → P a
All-In P a (x ∷ xs) h (inl e) = subst P e h.0
All-In P a (x ∷ xs) h (inr i) = All-In P a xs h.1 i
All-In P a [] h i = absurd i

module _ (account_id : ℕ) where
  abbrev head_of : List Action → Option Action
  head_of = head? account_id

  abbrev up : Action → Action → Bool
  up = ranks_before account_id

  abbrev down : Action → Action → Bool
  down = ranks_after account_id

  -- The first of an ordered list: none for the empty list, else a row before which none stands.
  abbrev First : (Action → Action → Bool) → List Action → Option Action → Type 0
  First before xs none = xs ≡ []
  First before xs (some a) = All (λ x. before x a ≡ false) xs × In a xs

  insert_by-First :
      (before : Action → Action → Bool) (x : Action) (ys : List Action)
      → head_of (insert_by before x ys)
        ≡ elim (head_of ys) [ none ↦ some x | some y ↦ if before x y then some x else some y ]
  unfolding insert_by
  insert_by-First before x [] = refl
  insert_by-First before x (y ∷ ys) = ground arith

  All-First :
      (before : Action → Action → Bool) (x y : Action)
      → ((x y z : Action) → before x y ≡ true → before z y ≡ false → before z x ≡ false)
      → before x y ≡ true
      → (xs : List Action) → All (λ z. before z y ≡ false) xs
      → All (λ z. before z x ≡ false) xs
  All-First before x y tr h [] a = tt
  All-First before x y tr h (z ∷ zs) a = (tr x y z h a.0, All-First before x y tr h zs a.1)

  First-cons :
      (before : Action → Action → Bool) (x : Action) (xs : List Action) (o : Option Action)
      → before x x ≡ false
      → ((x y z : Action) → before x y ≡ true → before z y ≡ false → before z x ≡ false)
      → First before xs o
      → First before
          (x ∷ xs)
          (elim o [ none ↦ some x | some y ↦ if before x y then some x else some y ])
  First-cons before x xs none irr tr f =
      ((irr, subst (All (λ z. before z x ≡ false)) (sym f) tt), inl refl)
  First-cons before x xs (some y) irr tr (a, i) = elim (Bool-cases (before x y)) [
    | inl h ↦ rw h ((irr, All-First before x y tr h xs a), inl refl)
    | inr h ↦ rw h ((h, a), inr i)
  ]

  order_by-First :
      (before : Action → Action → Bool)
      → ((x : Action) → before x x ≡ false)
      → ((x y z : Action) → before x y ≡ true → before z y ≡ false → before z x ≡ false)
      → (xs : List Action) → First before xs (head_of (order_by before xs))
  unfolding order_by
  order_by-First before irr tr [] = refl
  order_by-First before irr tr (x ∷ xs) = rw (insert_by-First before x (order_by before xs)) (
      First-cons before x xs (head_of (order_by before xs)) (irr x) tr
        (order_by-First before irr tr xs))

  In-select :
      (p : Action → Bool) (a : Action) (xs : List Action)
      → In a (select p xs)
      → (p a ≡ true) × In a xs
  unfolding select
  In-select p a [] i = absurd i
  In-select p a (x ∷ xs) i = elim (Bool-cases (p x)) [
    | inl h ↦ here_or_later h (In-select p a xs) (rw h at i)
    | inr h ↦ let (q, j) = In-select p a xs (rw h at i) in (q, inr j)
  ]
    where
      here_or_later :
          p x ≡ true
          → (In a (select p xs) → (p a ≡ true) × In a xs)
          → (x ≡ a) ⊎ In a (select p xs)
          → (p a ≡ true) × In a (x ∷ xs)
      here_or_later h ih (inl e) = (subst (λ y. p y ≡ true) e h, inl e)
      here_or_later h ih (inr i) = ((ih i).0, inr (ih i).1)

  select-In :
      (p : Action → Bool) (a : Action) (xs : List Action)
      → p a ≡ true
      → In a xs
      → In a (select p xs)
  unfolding select
  select-In p a [] h i = absurd i
  select-In p a (x ∷ xs) h (inl e) = rw (e, h) (inl refl)
  select-In p a (x ∷ xs) h (inr i) = elim (Bool-cases (p x)) [
    | inl q ↦ rw q (inr (select-In p a xs h i))
    | inr q ↦ rw q (select-In p a xs h i)
  ]

-- What the neighbour in a direction is: `ahead a b` says that `b` lies ahead of `a`.
module _ (account_id : ℕ) (action : Action) (db : Db) where
  abbrev on_path : Action → Bool
  on_path = is_on_path account_id action.path_id

  -- The successor is a row of the same path with a greater rank, and no row has a rank between them.
  abbrev pub IsSuccessor : Action → Type 0
  IsSuccessor nxt =
      In nxt db.actions
      × (on_path nxt ≡ true)
      × (action.rank < nxt.rank)
      × ((b : Action)
          → In b db.actions
          → on_path b ≡ true
          → action.rank < b.rank
          → nxt.rank ≤ b.rank)

  abbrev pub IsPredecessor : Action → Type 0
  IsPredecessor prv =
      In prv db.actions
      × (on_path prv ≡ true)
      × (prv.rank < action.rank)
      × ((b : Action)
          → In b db.actions
          → on_path b ≡ true
          → b.rank < action.rank
          → b.rank ≤ prv.rank)

  abbrev forward : List Action
  forward = select (λ a. on_path a && ltb action.rank a.rank) db.actions

  abbrev backward : List Action
  backward = select (λ a. on_path a && ltb a.rank action.rank) db.actions

  forward-First : First account_id (up account_id) forward (next_in_chain account_id action db)
  unfolding next_in_chain
  forward-First =
      order_by-First account_id (up account_id) (λ x. ground arith) (λ x y z p q. ground arith)
        forward

  backward-First : First account_id (down account_id) backward (prev_in_chain account_id action db)
  unfolding prev_in_chain
  backward-First =
      order_by-First account_id (down account_id) (λ x. ground arith) (λ x y z p q. ground arith)
        backward

  -- The drain's next action is the successor, whatever gaps the ranks have; at the tail there is none,
  -- and then no row of the path has a greater rank.
  next_in_chain_lem :
      ((nxt : Action) → next_in_chain account_id action db ≡ some nxt → IsSuccessor nxt)
      × (next_in_chain account_id action db ≡ none
          → (b : Action) → In b db.actions
          → on_path b ≡ true
          → b.rank ≤ action.rank)
  next_in_chain_lem = (
    (λ nxt e.
        let (least, i) = subst (First account_id (up account_id) forward) e forward-First in
        let (h, j) = In-select account_id _ nxt db.actions i in
        (
          j,
          ground arith,
          ground arith,
          λ b k o l.
              let r =
                All-In _ b forward least (select-In account_id _ b db.actions (ground arith) k) in
              ground arith,
        )),
    (λ e b k o. elim (Bool-cases (ltb action.rank b.rank)) [
      | inl l ↦
          let empty = subst (First account_id (up account_id) forward) e forward-First in
          absurd (subst (In b) empty (select-In account_id _ b db.actions (ground arith) k))
      | inr l ↦ ground arith
    ]),
  )

  prev_in_chain_lem :
      ((prv : Action) → prev_in_chain account_id action db ≡ some prv → IsPredecessor prv)
      × (prev_in_chain account_id action db ≡ none
          → (b : Action) → In b db.actions
          → on_path b ≡ true
          → action.rank ≤ b.rank)
  prev_in_chain_lem = (
    (λ prv e.
        let (least, i) = subst (First account_id (down account_id) backward) e backward-First in
        let (h, j) = In-select account_id _ prv db.actions i in
        (
          j,
          ground arith,
          ground arith,
          λ b k o l.
              let r =
                All-In _ b backward least (select-In account_id _ b db.actions (ground arith) k) in
              ground arith,
        )),
    (λ e b k o. elim (Bool-cases (ltb b.rank action.rank)) [
      | inl l ↦
          let empty = subst (First account_id (down account_id) backward) e backward-First in
          absurd (subst (In b) empty (select-In account_id _ b db.actions (ground arith) k))
      | inr l ↦ ground arith
    ]),
  )

-- For an action that is a row of the account, the next action of the chain has a previous one, of
-- the same rank as the action.
pub prev-next_in_chain :
    (account_id : ℕ) (action nxt : Action) (db : Db)
    → In action db.actions
    → action.account_id ≡ account_id
    → next_in_chain account_id action db ≡ some nxt
    → (prv : Action) × (prev_in_chain account_id nxt db ≡ some prv) × (prv.rank ≡ action.rank)
prev-next_in_chain account_id action nxt db i own e =
    elim (Option-cases (prev_in_chain account_id nxt db)) [
      | inl missing ↦ absurd (omega (arith, gap missing, succ.2))
      | inr (prv, found) ↦ (prv, found, between prv found)
    ]
  where
    succ : IsSuccessor account_id action db nxt
    succ = (next_in_chain_lem account_id action db).0 nxt e

    same_path : is_on_path account_id nxt.path_id action ≡ true
    same_path = ground (arith, succ.1)

    gap : prev_in_chain account_id nxt db ≡ Option.none → nxt.rank ≤ action.rank
    gap h = (prev_in_chain_lem account_id nxt db).1 h action i same_path

    between : (prv : Action) → prev_in_chain account_id nxt db ≡ some prv → prv.rank ≡ action.rank
    between prv found =
        let pred = (prev_in_chain_lem account_id nxt db).0 prv found in
        let up_to : action.rank ≤ prv.rank = pred.3 action i same_path succ.2 in
        elim (Bool-cases (ltb action.rank prv.rank)) [
          | inl l ↦
              let past : nxt.rank ≤ prv.rank =
                succ.3 prv pred.0 (ground (arith, succ.1, pred.1)) (ground arith) in
              absurd (omega (arith, pred.2))
          | inr l ↦ ground arith
        ]

-- The next action of the chain is a row of the action's path with the least rank above the
-- action's own, whatever gaps the ranks have.
pub next_in_chain-IsSuccessor :
    (account_id : ℕ) (action nxt : Action) (db : Db)
    → next_in_chain account_id action db ≡ some nxt
    → IsSuccessor account_id action db nxt
next_in_chain-IsSuccessor account_id action nxt db e =
    (next_in_chain_lem account_id action db).0 nxt e

-- If an action has no next one, no row of its path has a greater rank.
next_in_chain_tail :
    (account_id : ℕ) (action b : Action) (db : Db)
    → next_in_chain account_id action db ≡ none
    → In b db.actions
    → is_on_path account_id action.path_id b ≡ true
    → b.rank ≤ action.rank
next_in_chain_tail account_id action b db e i o = (next_in_chain_lem account_id action db).1 e b i o

-- The previous action of the chain is a row of the action's path with the greatest rank below the
-- action's own.
prev_in_chain-IsPredecessor :
    (account_id : ℕ) (action prv : Action) (db : Db)
    → prev_in_chain account_id action db ≡ some prv
    → IsPredecessor account_id action db prv
prev_in_chain-IsPredecessor account_id action prv db e =
    (prev_in_chain_lem account_id action db).0 prv e
