-- ===== src/Common/Cache.antt =====
-- The cache of Django (`django.core.cache.cache`), which the code only calls: its operations, and
-- what its documentation says of them. Each operation is at a time, as a timeout passes by itself.
use openmagpie.Prelude.{
  ℕ, ◌+◌, ◌≤◌, ◌≡◌, ◌≢◌, Bool, true, false, Option, none, some, ltb, if◌then◌else◌,
}

-- `K` are the keys, `V` the values and `C` the states of the backend.
pub record Cache (K V C : Type 0) : Type 0 where
  pub get : ℕ → K → C → Option V
  pub add : ℕ → K → V → ℕ → C → Bool × C
  pub set : ℕ → K → V → ℕ → C → C
  pub delete : K → C → C
  pub get-set :
      (now t timeout : ℕ) (key : K) (value : V) (c : C)
      → now ≤ t
      → get t key (set now key value timeout c)
        ≡ (if ltb t (now + timeout) then some value else none)
  pub get-set_other :
      (now t timeout : ℕ) (key other : K) (value : V) (c : C)
      → key ≢ other
      → get t other (set now key value timeout c) ≡ get t other c
  pub get-delete : (t : ℕ) (key : K) (c : C) → get t key (delete key c) ≡ none
  pub get-delete_other :
      (t : ℕ) (key other : K) (c : C) → key ≢ other → get t other (delete key c) ≡ get t other c
  pub add_absent :
      (now timeout : ℕ) (key : K) (value : V) (c : C)
      → get now key c ≡ none
      → add now key value timeout c ≡ (true, set now key value timeout c)
  pub add_present :
      (now timeout : ℕ) (key : K) (value old : V) (c : C)
      → get now key c ≡ some old
      → add now key value timeout c ≡ (false, c)
