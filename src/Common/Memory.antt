-- ===== src/Common/Memory.antt =====
-- A cache of Django in memory, with which the theorems on a cache are applied.
use openmagpie.Prelude.{
  ℕ, ◌+◌, ◌≡◌, ◌≢◌, refl, ◌↔◌, Bool, true, false, Option, none, some, ltb, if◌then◌else◌,
  Bool-cases, inl, inr,
}
use openmagpie.Common.Cache.{Cache}

-- The entry of a key has its value, and the time from which it has expired.
abbrev pub Memory : Type 0 → Type 0 → Type 0
Memory K V = K → Option (V × ℕ)

module _ {K : Type 0} (same : K → K → Bool)
    (same_iff : (a b : K) → (same a b ≡ true) ↔ (a ≡ b)) where
  pub same_refl : (key : K) → same key key ≡ true
  same_refl key = (same_iff key key).1 refl

  pub same-false : (key other : K) → key ≢ other → same key other ≡ false
  same-false key other apart = elim (Bool-cases (same key other)) [
    | inl h ↦ absurd (apart ((same_iff key other).0 h))
    | inr h ↦ h
  ]

module _ {K V : Type 0} (same : K → K → Bool)
    (same_iff : (a b : K) → (same a b ≡ true) ↔ (a ≡ b)) where
  abbrev alive : ℕ → Option (V × ℕ) → Option V
  alive now none = none
  alive now (some (value, until)) = if ltb now until then some value else none

  abbrev write : K → Option (V × ℕ) → Memory K V → Memory K V
  write key entry c other = if same key other then entry else c other

  abbrev add_to : Option V → ℕ → K → V → ℕ → Memory K V → Bool × Memory K V
  add_to none now key value timeout c = (true, write key (some (value, now + timeout)) c)
  add_to (some old) now key value timeout c = (false, c)

  abbrev pub memory : Cache K V (Memory K V)
  memory = record {
    get = λ now key c. alive now (c key);
    add = λ now key value timeout c. add_to (alive now (c key)) now key value timeout c;
    set = λ now key value timeout c. write key (some (value, now + timeout)) c;
    delete = λ key c. write key none c;
    get-set = λ now t timeout key value c late. rw (same_refl same same_iff key) refl;
    get-set_other =
        λ now t timeout key other value c apart. rw (same-false same same_iff key other apart) refl;
    get-delete = λ t key c. rw (same_refl same same_iff key) refl;
    get-delete_other = λ t key other c apart. rw (same-false same same_iff key other apart) refl;
    add_absent = λ now timeout key value c free. rw free refl;
    add_present = λ now timeout key value old c held. rw held refl;
  }
