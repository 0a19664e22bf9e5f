-- ===== src/Watches/Flush/Fading.antt =====
-- Runs that lose their PENDING state, as under the batch completion of a slice in
-- apps/core/watches/operations/digest_flush.py.
use openmagpie.Prelude.{
  ℕ, ◌≤◌, ◌<◌, ◌≡◌, refl, Bool, true, false, ◌&&◌, List, [], ◌∷◌, arith, ◌==◌, exists,
  exists-append, count, update, batched, concat, concat-batched, Bool-cases, inl, inr,
}
use openmagpie.Watches.Enums.{pending, state_eq}
use openmagpie.Watches.Model.{Run, Db}
use openmagpie.Watches.Runs.Complete.{
  is_pending_of, is_pending_in, id_in, complete_chunks, id_in_chunk,
}

abbrev pub is_pending : Run → Bool
is_pending r = state_eq r.state pending

-- The same row, pending only if it was.
pub record FadesRow (x y : Run) : Type 0 where
  pub id : y.id ≡ x.id
  pub account_id : y.account_id ≡ x.account_id
  pub action_id : y.action_id ≡ x.action_id
  pub state : is_pending y ≡ true → is_pending x ≡ true

abbrev pub Fades : List Run → List Run → Type 0
Fades [] [] = Unit
Fades (x ∷ xs) (y ∷ ys) = FadesRow x y × Fades xs ys
Fades _ _ = ⊥

pub Fades-refl : (xs : List Run) → Fades xs xs
Fades-refl [] = tt
Fades-refl (x ∷ xs) =
    (record { id = refl; account_id = refl; action_id = refl; state = λ h. h }, Fades-refl xs)

FadesRow-trans : (x y z : Run) → FadesRow x y → FadesRow y z → FadesRow x z
FadesRow-trans x y z f g = record {
  id = cc;
  account_id = cc;
  action_id = cc;
  state = λ h. f.state (g.state h);
}

pub Fades-trans : (xs ys zs : List Run) → Fades xs ys → Fades ys zs → Fades xs zs
Fades-trans [] [] [] f g = tt
Fades-trans (x ∷ xs) (y ∷ ys) (z ∷ zs) f g =
    (FadesRow-trans x y z f.0 g.0, Fades-trans xs ys zs f.1 g.1)
Fades-trans (x ∷ xs) (y ∷ ys) [] f g = absurd g
Fades-trans (x ∷ xs) [] zs f g = absurd f
Fades-trans [] (y ∷ ys) zs f g = absurd f
Fades-trans [] [] (z ∷ zs) f g = absurd g

Fades-update :
    (p : Run → Bool) (f : Run → Run)
    → ((r : Run) → FadesRow r (f r))
    → (xs : List Run) → Fades xs (update p f xs)
unfolding update
Fades-update p f h [] = tt
Fades-update p f h (x ∷ xs) = elim (Bool-cases (p x)) [
  | inl hit ↦ rw hit (h x, Fades-update p f h xs)
  | inr miss ↦ rw miss (
    record { id = refl; account_id = refl; action_id = refl; state = λ e. e },
    Fades-update p f h xs,
  )
]

module _ (account_id action_id : ℕ) where
  abbrev pub pending_count : List Run → ℕ
  pending_count = count (is_pending_of account_id action_id)

  -- The run with this id, while it is pending.
  abbrev pub is_owed : ℕ → Run → Bool
  is_owed i r = is_pending_of account_id action_id r && r.id == i

  Fades-count : (xs ys : List Run) → Fades xs ys → pending_count ys ≤ pending_count xs
  unfolding count
  Fades-count [] [] f = omega arith
  Fades-count (x ∷ xs) (y ∷ ys) f = ground (arith, f.0, Fades-count xs ys f.1)
  Fades-count (x ∷ xs) [] f = absurd f
  Fades-count [] (y ∷ ys) f = absurd f

  Fades-cleared :
      (i : ℕ) (xs ys : List Run)
      → Fades xs ys
      → exists (is_owed i) xs ≡ false
      → exists (is_owed i) ys ≡ false
  unfolding exists
  Fades-cleared i [] [] f h = refl
  Fades-cleared i (x ∷ xs) (y ∷ ys) f h = ground (arith, f.0, Fades-cleared i xs ys f.1)
  Fades-cleared i (x ∷ xs) [] f h = absurd f
  Fades-cleared i [] (y ∷ ys) f h = absurd f

  -- A pending run that is cleared makes the count smaller.
  pub Fades-drop :
      (i : ℕ) (xs ys : List Run)
      → Fades xs ys
      → exists (is_owed i) xs ≡ true
      → exists (is_owed i) ys ≡ false
      → pending_count ys < pending_count xs
  unfolding exists count
  Fades-drop i [] [] f h g = absurd (ground arith)
  Fades-drop i (x ∷ xs) (y ∷ ys) f h g =
      ground (arith, f.0, Fades-count xs ys f.1, Fades-drop i xs ys f.1)
  Fades-drop i (x ∷ xs) [] f h g = absurd f
  Fades-drop i [] (y ∷ ys) f h g = absurd f

  cleared :
      (f : Run → Run)
      → ((r : Run) → is_pending (f r) ≡ false)
      → (chunk : List ℕ) (i : ℕ) → id_in chunk i ≡ true
      → (xs : List Run) → exists (is_owed i) (update (is_pending_in account_id chunk) f xs) ≡ false
  unfolding exists update
  cleared f h chunk i o [] = refl
  cleared f h chunk i o (x ∷ xs) = ground (arith, h x, cleared f h chunk i o xs)

  module _ (f : Run → Run) (keep : (r : Run) → FadesRow r (f r))
      (done : (r : Run) → is_pending (f r) ≡ false) where
    complete_chunks-Fades :
        (chunks : List (List ℕ)) (written : ℕ) (db : Db)
        → Fades db.runs (complete_chunks account_id f chunks written db).1.runs
    unfolding complete_chunks
    complete_chunks-Fades [] written db = Fades-refl db.runs
    complete_chunks-Fades (chunk ∷ chunks) written db =
        Fades-trans db.runs _ _ (Fades-update (is_pending_in account_id chunk) f keep db.runs)
          (complete_chunks-Fades chunks _ _)

    complete_chunks-cleared :
        (i : ℕ) (chunks : List (List ℕ)) (written : ℕ) (db : Db)
        → id_in (concat chunks) i ≡ true
        → exists (is_owed i) (complete_chunks account_id f chunks written db).1.runs ≡ false
    unfolding complete_chunks concat id_in exists
    complete_chunks-cleared i [] written db o = absurd (ground arith)
    complete_chunks-cleared i (chunk ∷ chunks) written db o = elim (Bool-cases (id_in chunk i)) [
      | inl hit ↦
          Fades-cleared i _ _ (complete_chunks-Fades chunks _ _)
            (cleared f done chunk i hit db.runs)
      | inr miss ↦
          complete_chunks-cleared i chunks _ _
            (ground (arith, exists-append (λ j. j == i) chunk (concat chunks)))
    ]

    pub complete_batch-cleared :
        (i : ℕ) (ids : List ℕ) (db : Db)
        → id_in ids i ≡ true
        → exists (is_owed i) (complete_chunks account_id f (batched ids id_in_chunk) 0 db).1.runs
          ≡ false
    complete_batch-cleared i ids db o =
        complete_chunks-cleared i (batched ids id_in_chunk) 0 db
          (rw (concat-batched ids id_in_chunk) o)

    pub complete_batch-Fades :
        (ids : List ℕ) (db : Db)
        → Fades db.runs (complete_chunks account_id f (batched ids id_in_chunk) 0 db).1.runs
    complete_batch-Fades ids db = complete_chunks-Fades (batched ids id_in_chunk) 0 db

  pub complete_chunks-actions :
      (f : Run → Run) (chunks : List (List ℕ)) (written : ℕ) (db : Db)
      → (complete_chunks account_id f chunks written db).1.actions ≡ db.actions
  unfolding complete_chunks
  complete_chunks-actions f [] written db = refl
  complete_chunks-actions f (chunk ∷ chunks) written db = complete_chunks-actions f chunks _ _
