-- ===== src/Prelude/Find.antt =====
-- `objects.filter(...).first()` after the other queries on a table.
use mathlib.Core.Path.{◌≡◌, refl, ◌∙◌}
use mathlib.Core.Bool.{Bool, true, false, ◌&&◌}
use mathlib.Core.Logic.{inl, inr}
use mathlib.Core.Option.{Option, none, some}
use mathlib.Core.Option.{map as map_option}
use mathlib.Core.List.{List, [], ◌∷◌, ◌++◌}
use native.Mathlib.Omega.{arith}
use openmagpie.Prelude.Tests.{if◌then◌else◌, is_some, Bool-cases}
use openmagpie.Prelude.Lists.{exists, All, length}
use openmagpie.Prelude.Table.{select, count, update, remove, find, Unique}

module _ {ℓ} {A : Type ℓ} where
  -- `a or b`.
  unfoldable pub or_else : Option A → Option A → Option A
  or_else none b = b
  or_else (some a) b = some a

  pub find-append :
      (p : A → Bool) (xs ys : List A) → find p (xs ++ ys) ≡ or_else (find p xs) (find p ys)
  unfolding find or_else
  find-append p [] ys = refl
  find-append p (x ∷ xs) ys = ground (arith, find-append p xs ys)

  -- The test decides whether the row is removed.
  pub find-remove :
      (p q : A → Bool) (b : Bool)
      → ((x : A) → p x ≡ true → q x ≡ b)
      → (xs : List A) → find p (remove q xs) ≡ (if b then none else find p xs)
  unfolding find remove
  find-remove p q b decides [] = ground arith
  find-remove p q b decides (x ∷ xs) = ground (arith, decides x, find-remove p q b decides xs)

  pub find-update :
      (p q : A → Bool) (f : A → A)
      → ((x : A) → p (f x) ≡ p x)
      → (xs : List A)
      → find p (update q f xs) ≡ map_option (λ x. if q x then f x else x) (find p xs)
  unfolding find update
  find-update p q f keep [] = refl
  find-update p q f keep (x ∷ xs) = ground (arith, keep x, find-update p q f keep xs)

  pub find-select :
      (p q : A → Bool) (xs : List A) → find p (select q xs) ≡ find (λ x. q x && p x) xs
  unfolding find select
  find-select p q [] = refl
  find-select p q (x ∷ xs) = ground (arith, find-select p q xs)

  -- The test decides whether the row is selected.
  pub find-select_decided :
      (p q : A → Bool) (b : Bool)
      → ((x : A) → p x ≡ true → q x ≡ b)
      → (xs : List A) → find p (select q xs) ≡ (if b then find p xs else none)
  unfolding find select
  find-select_decided p q b decides [] = ground arith
  find-select_decided p q b decides (x ∷ xs) =
      ground (arith, decides x, find-select_decided p q b decides xs)

  pub exists-false :
      (p q : A → Bool) (xs : List A) (x : A)
      → exists q xs ≡ false
      → find p xs ≡ some x
      → q x ≡ false
  unfolding find exists
  exists-false p q [] x h f = ground arith
  exists-false p q (y ∷ ys) x h f = ground (arith, exists-false p q ys x)

  pub exists-find : (p : A → Bool) (xs : List A) → exists p xs ≡ is_some (find p xs)
  unfolding find exists
  exists-find p [] = refl
  exists-find p (x ∷ xs) = ground (arith, exists-find p xs)

  pub find-true : (p : A → Bool) (xs : List A) (x : A) → find p xs ≡ some x → p x ≡ true
  unfolding find
  find-true p [] x h = ground arith
  find-true p (y ∷ ys) x h = ground (arith, find-true p ys x)

  pub exists_ext :
      (p q : A → Bool) → ((x : A) → p x ≡ q x) → (xs : List A) → exists p xs ≡ exists q xs
  unfolding exists
  exists_ext p q same [] = refl
  exists_ext p q same (x ∷ xs) = ground (arith, same x, exists_ext p q same xs)

  find_ext : (p q : A → Bool) → ((x : A) → p x ≡ q x) → (xs : List A) → find p xs ≡ find q xs
  unfolding find
  find_ext p q same [] = refl
  find_ext p q same (x ∷ xs) = ground (arith, same x, find_ext p q same xs)

  pub find-absent :
      (p q : A → Bool)
      → ((x : A) → p x ≡ true → q x ≡ true)
      → (xs : List A) → exists q xs ≡ false
      → find p xs ≡ none
  unfolding find exists
  find-absent p q implies [] h = refl
  find-absent p q implies (x ∷ xs) h = ground (arith, implies x, find-absent p q implies xs)

  -- Where the row that passes is the only one, a narrower query gives it or nothing.
  pub find-filter :
      (p q : A → Bool) (same : A → A → Bool)
      → ((x y : A) → p x ≡ true → p y ≡ true → same x y ≡ true)
      → (xs : List A) → Unique same xs
      → find (λ x. q x && p x) xs
        ≡ elim (find p xs) [ none ↦ none | some x ↦ if q x then some x else none ]
  unfolding find
  find-filter p q same alike [] u = refl
  find-filter p q same alike (x ∷ xs) u = elim (Bool-cases (p x)) [
    | inl passes ↦
        let gone =
          find-absent (λ y. q y && p y) (same x) (λ y h. alike x y passes (ground arith)) xs u.0 in
        rw passes (ground (arith, gone))
    | inr fails ↦ rw fails (ground (arith, find-filter p q same alike xs u.1))
  ]

  pub All-imp {κ μ} :
      (P : A → Type κ) (Q : A → Type μ)
      → ((x : A) → P x → Q x)
      → (xs : List A) → All P xs
      → All Q xs
  All-imp P Q step [] h = tt
  All-imp P Q step (x ∷ xs) h = (step x h.0, All-imp P Q step xs h.1)

  -- Every row finds itself.
  pub All-exists :
      (r : A → A → Bool)
      → ((x : A) → r x x ≡ true)
      → (xs : List A) → All (λ x. exists (r x) xs ≡ true) xs
  unfolding exists
  All-exists r self [] = tt
  All-exists r self (x ∷ xs) = (
    rw (self x) refl,
    All-imp (λ y. exists (r y) xs ≡ true) (λ y. exists (r y) (x ∷ xs) ≡ true)
        (λ y h. unfold exists in ground (arith, h)) xs (All-exists r self xs),
  )

  pub count-All :
      (p : A → Bool) (b : Bool) (xs : List A)
      → All (λ x. p x ≡ b) xs
      → count p xs ≡ (if b then length xs else 0)
  unfolding count
  count-All p b [] h = ground arith
  count-All p b (x ∷ xs) h = ground (arith, h.0, count-All p b xs h.1)

  pub exists-remove_self : (p : A → Bool) (xs : List A) → exists p (remove p xs) ≡ false
  unfolding exists remove
  exists-remove_self p [] = refl
  exists-remove_self p (x ∷ xs) = ground (arith, exists-remove_self p xs)

  pub find-remove_absent :
      (p q : A → Bool) (xs : List A) → exists p xs ≡ false → find p (remove q xs) ≡ none
  unfolding find exists remove
  find-remove_absent p q [] h = refl
  find-remove_absent p q (x ∷ xs) h = ground (arith, find-remove_absent p q xs)

  -- The row that a query finds, removed, where no other row passes.
  pub find-remove_found :
      (p q : A → Bool) (same : A → A → Bool)
      → ((x y : A) → p x ≡ true → p y ≡ same x y)
      → (xs : List A) (found : A) → Unique same xs
      → find p xs ≡ some found
      → q found ≡ true
      → find p (remove q xs) ≡ none
  unfolding find remove
  find-remove_found p q same alike [] found u f h = refl
  find-remove_found p q same alike (x ∷ xs) found u f h = elim (Bool-cases (p x)) [
    | inl passes ↦
        let self : q x ≡ true = ground arith in
        rw self (find-remove_absent p q xs (exists_ext p (same x) (λ y. alike x y passes) xs ∙ u.0))
    | inr fails ↦ ground (arith, find-remove_found p q same alike xs found u.1)
  ]

  pub update-All :
      (p : A → Bool) (f : A → A) (xs : List A) → All (λ x. p x ≡ false) xs → update p f xs ≡ xs
  unfolding update
  update-All p f [] h = refl
  update-All p f (x ∷ xs) h = rw (h.0, update-All p f xs h.1) refl

pub map-some {ℓ κ} :
    {A : Type ℓ} {B : Type κ} (f : A → B) (o : Option A) (y : B)
    → map_option f o ≡ some y
    → (x : A) × (o ≡ some x) × (y ≡ f x)
map-some f none y e = absurd (ground arith)
map-some f (some x) y e = (x, refl, ground arith)
