-- ===== src/Prelude/Batched.antt =====
-- `itertools.batched(xs, n, strict=False)`: chunks of `n`, the last one shorter.
use Prim.Native.Nat.{ℕ, zero, suc, ◌+◌, ◌≤◌}
use mathlib.Core.Path.{◌≡◌, refl, ap}
use mathlib.Core.List.{List, [], ◌∷◌, ◌++◌, append_assoc, append-nil}
use native.Mathlib.Omega.{arith}
use openmagpie.Prelude.Lists.{length, All, length-append}

module _ {ℓ} {A : Type ℓ} where
  -- `chunk` is the chunk under way, which still has `room`; `n` is one less than the chunk size.
  unfoldable pub batched_from : ℕ → ℕ → List A → List A → List (List A)
  batched_from n room chunk [] = chunk ∷ []
  batched_from n zero chunk (x ∷ xs) = chunk ∷ batched_from n n (x ∷ []) xs
  batched_from n (suc room) chunk (x ∷ xs) = batched_from n room (chunk ++ x ∷ []) xs

  -- No chunk is empty: an empty input has no chunks.
  unfoldable pub batched : List A → ℕ → List (List A)
  unfolding batched_from
  batched [] size = []
  batched (x ∷ xs) zero = (x ∷ xs) ∷ []
  batched (x ∷ xs) (suc n) = batched_from n n (x ∷ []) xs

  unfoldable pub concat : List (List A) → List A
  concat [] = []
  concat (c ∷ cs) = c ++ concat cs

  concat-batched_from :
      (n room : ℕ) (chunk xs : List A) → concat (batched_from n room chunk xs) ≡ chunk ++ xs
  unfolding batched_from concat
  concat-batched_from n room chunk [] = refl
  concat-batched_from n zero chunk (x ∷ xs) = ap (◌++◌ chunk) (concat-batched_from n n (x ∷ []) xs)
  concat-batched_from n (suc room) chunk (x ∷ xs) =
      rw (concat-batched_from n room (chunk ++ x ∷ []) xs) (append_assoc chunk (x ∷ []) xs)

  -- The chunks hold the elements, in order.
  pub concat-batched : (xs : List A) (size : ℕ) → concat (batched xs size) ≡ xs
  unfolding batched concat
  concat-batched [] size = refl
  concat-batched (x ∷ xs) zero = append-nil (x ∷ xs)
  concat-batched (x ∷ xs) (suc n) = concat-batched_from n n (x ∷ []) xs

  -- A chunk is within the size.
  abbrev pub Within : ℕ → List A → Type 0
  Within size chunk = length chunk ≤ size

  batched_from-Within :
      (n room : ℕ) (chunk xs : List A)
      → length chunk + room ≤ suc n
      → All (Within (suc n)) (batched_from n room chunk xs)
  unfolding batched_from
  batched_from-Within n room chunk [] h = (omega arith, tt)
  batched_from-Within n zero chunk (x ∷ xs) h =
      (omega arith, batched_from-Within n n (x ∷ []) xs (omega arith))
  batched_from-Within n (suc room) chunk (x ∷ xs) h =
      batched_from-Within n room (chunk ++ x ∷ []) xs (omega (arith, length-append chunk (x ∷ [])))

  pub batched-Within : (xs : List A) (n : ℕ) → All (Within (suc n)) (batched xs (suc n))
  unfolding batched
  batched-Within [] n = tt
  batched-Within (x ∷ xs) n = batched_from-Within n n (x ∷ []) xs (omega arith)
