-- ===== src/Prelude/Table.antt =====
-- A database table as the list of its rows, and the ORM's queries on it.
use Prim.Native.Nat.{ℕ, suc}
use mathlib.Core.Path.{◌≡◌, refl, ap, fun_ext, ◌∙◌}
use mathlib.Core.Bool.{Bool, true, false}
use mathlib.Core.Option.{Option, none, some}
use mathlib.Core.List.{List, [], ◌∷◌, ◌++◌}
use native.Mathlib.Omega.{arith}
use openmagpie.Prelude.Tests.{if◌then◌else◌}
use openmagpie.Prelude.Lists.{length, All, exists, exists-append}

module _ {ℓ} {A : Type ℓ} where
  -- `objects.filter(...)`.
  unfoldable pub select : (A → Bool) → List A → List A
  select p [] = []
  select p (x ∷ xs) = let rest = select p xs in if p x then x ∷ rest else rest

  -- `objects.filter(...).count()`, and the row count that `.update(...)` returns.
  unfoldable pub count : (A → Bool) → List A → ℕ
  count p [] = 0
  count p (x ∷ xs) = let rest = count p xs in if p x then suc rest else rest

  -- `objects.filter(...).update(...)`.
  unfoldable pub update : (A → Bool) → (A → A) → List A → List A
  update p f [] = []
  update p f (x ∷ xs) = (if p x then f x else x) ∷ update p f xs

  -- `objects.filter(...).delete()`.
  unfoldable pub remove : (A → Bool) → List A → List A
  remove p [] = []
  remove p (x ∷ xs) = let rest = remove p xs in if p x then rest else x ∷ rest

  -- `objects.filter(...).first()`.
  unfoldable pub find : (A → Bool) → List A → Option A
  find p [] = none
  find p (x ∷ xs) = let rest = find p xs in if p x then some x else rest

  -- Insertion into a sorted list, behind the rows that are not greater.
  unfoldable pub insert_by : (A → A → Bool) → A → List A → List A
  insert_by before x [] = x ∷ []
  insert_by before x (y ∷ ys) =
      let rest = insert_by before x ys in if before x y then x ∷ y ∷ ys else y ∷ rest

  -- `.order_by(...)`, by a strict order on the rows.
  unfoldable pub order_by : (A → A → Bool) → List A → List A
  unfolding insert_by
  order_by before [] = []
  order_by before (x ∷ xs) = insert_by before x (order_by before xs)

  pub All-update {κ} :
      (P : A → Type κ) (p : A → Bool) (f : A → A)
      → ((x : A) → p x ≡ true → P x → P (f x))
      → (xs : List A) → All P xs
      → All P (update p f xs)
  unfolding update
  All-update P p f step [] h = tt
  All-update P p f step (x ∷ xs) h = ground (arith, step x, All-update P p f step xs)

  All-select {κ} : (P : A → Type κ) (p : A → Bool) (xs : List A) → All P xs → All P (select p xs)
  unfolding select
  All-select P p [] h = tt
  All-select P p (x ∷ xs) h = ground (arith, All-select P p xs)

  pub All-remove {κ} :
      (P : A → Type κ) (p : A → Bool) (xs : List A) → All P xs → All P (remove p xs)
  unfolding remove
  All-remove P p [] h = tt
  All-remove P p (x ∷ xs) h = ground (arith, All-remove P p xs)

  pub length-update : (p : A → Bool) (f : A → A) (xs : List A) → length (update p f xs) ≡ length xs
  unfolding update
  length-update p f [] = refl
  length-update p f (x ∷ xs) = ap suc (length-update p f xs)

  -- An update that no row matches changes nothing.
  pub update-none :
      (p : A → Bool) (f : A → A) (xs : List A) → exists p xs ≡ false → update p f xs ≡ xs
  unfolding update exists
  update-none p f [] h = refl
  update-none p f (x ∷ xs) h = ground (arith, update-none p f xs)

  -- An update that keeps a test keeps whether a row passes it.
  exists-update :
      (q p : A → Bool) (f : A → A)
      → ((x : A) → q (f x) ≡ q x)
      → (xs : List A) → exists q (update p f xs) ≡ exists q xs
  unfolding exists update
  exists-update q p f keep [] = refl
  exists-update q p f keep (x ∷ xs) = ground (arith, keep x, exists-update q p f keep xs)

  exists-count : (p : A → Bool) (xs : List A) → count p xs ≡ 0 → exists p xs ≡ false
  unfolding exists count
  exists-count p [] h = refl
  exists-count p (x ∷ xs) h = ground (arith, exists-count p xs)

  -- No two rows have the same key, a unique constraint.
  abbrev pub Unique : (A → A → Bool) → List A → Type 0
  Unique same [] = Unit
  Unique same (x ∷ xs) = (exists (same x) xs ≡ false) × Unique same xs

  pub Unique-update :
      (same : A → A → Bool) (p : A → Bool) (f : A → A)
      → ((x y : A) → same x (f y) ≡ same x y)
      → ((x y : A) → same (f x) y ≡ same x y)
      → (xs : List A) → Unique same xs
      → Unique same (update p f xs)
  unfolding update
  Unique-update same p f right left [] h = tt
  Unique-update same p f right left (x ∷ xs) h =
      (old (p x), Unique-update same p f right left xs h.1)
    where
      kept : exists (same x) (update p f xs) ≡ false
      kept = exists-update (same x) p f (right x) xs ∙ h.0

      old : (b : Bool) → exists (same (if b then f x else x)) (update p f xs) ≡ false
      old true = rw (fun_ext (left x)) kept
      old false = kept

  pub Unique-append_one :
      (same : A → A → Bool)
      → ((x y : A) → same x y ≡ same y x)
      → (xs : List A) (y : A) → Unique same xs
      → exists (same y) xs ≡ false
      → Unique same (xs ++ y ∷ [])
  unfolding exists
  Unique-append_one same symm [] y h new = (refl, tt)
  Unique-append_one same symm (x ∷ xs) y h new = (
    ground (arith, exists-append (same x) xs (y ∷ []), symm x y),
    Unique-append_one same symm xs y h.1 (ground arith),
  )

  exists-remove :
      (q p : A → Bool) (xs : List A) → exists q xs ≡ false → exists q (remove p xs) ≡ false
  unfolding exists remove
  exists-remove q p [] h = refl
  exists-remove q p (x ∷ xs) h = ground (arith, exists-remove q p xs)

  pub Unique-remove :
      (same : A → A → Bool) (p : A → Bool) (xs : List A)
      → Unique same xs
      → Unique same (remove p xs)
  unfolding remove
  Unique-remove same p [] h = tt
  Unique-remove same p (x ∷ xs) h =
      ground (arith, exists-remove (same x) p xs, Unique-remove same p xs)

  exists-select :
      (q p : A → Bool) (xs : List A) → exists q xs ≡ false → exists q (select p xs) ≡ false
  unfolding exists select
  exists-select q p [] h = refl
  exists-select q p (x ∷ xs) h = ground (arith, exists-select q p xs)

  pub Unique-select :
      (same : A → A → Bool) (p : A → Bool) (xs : List A)
      → Unique same xs
      → Unique same (select p xs)
  unfolding select
  Unique-select same p [] h = tt
  Unique-select same p (x ∷ xs) h =
      ground (arith, exists-select (same x) p xs, Unique-select same p xs)

  pub append-Unique :
      (same : A → A → Bool) (xs ys : List A)
      → Unique same (xs ++ ys)
      → Unique same xs × Unique same ys
  append-Unique same [] ys h = (tt, h)
  append-Unique same (x ∷ xs) ys h =
      let (a, b) = append-Unique same xs ys h.1 in
      ((ground (arith, exists-append (same x) xs ys), a), b)
