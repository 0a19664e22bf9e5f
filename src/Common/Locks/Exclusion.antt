-- ===== src/Common/Locks/Exclusion.antt =====
-- Who has a lock of apps/core/common/locks.py: one process at a time.
use Prim.Native.String.{String}
use openmagpie.Prelude.{
  ℕ, ◌≤◌, ◌<◌, ◌≡◌, ◌≢◌, ap, leb, Bool-cases, inl, inr, refl, sym, ◌∙◌, subst, true, false, ==-refl,
  none, some, arith,
}
use openmagpie.Common.Cache.{Cache}
use openmagpie.Common.Locks.{acquire, renew, is_token}
use openmagpie.Common.Locks.World.{Holder, World, Reach, ends_at}
use openmagpie.Common.Locks.Safety.{Fits, IsFenced, Reach-IsFenced}

-- No process is inside a lock.
unfoldable pub IsIdle : {C : Type 0} → World C → Type 0
IsIdle w = (token : ℕ) → w.holders token ≡ none

-- A process that took its lock and has not lost it, in the window that its last write opened.
abbrev pub IsLive : ℕ → Holder → Type 0
IsLive now h = (h.lease.acquired ≡ true) × (now < ends_at h)

module _ {C : Type 0} (cache : Cache String ℕ C) where
  idle-IsFenced : (w : World C) → IsIdle w → IsFenced cache w
  unfolding IsIdle
  idle-IsFenced w idle token = rw (idle token) tt

  module _ (start w : World C) (idle : IsIdle start) (path : Reach cache start w)
      (timely : w.late ≡ false) where
    fits :
        (token : ℕ) (h : Holder)
        → w.holders token ≡ some h
        → Fits cache w.now w.cache token (some h)
    fits token h found =
        subst (Fits cache w.now w.cache token) found
          (Reach-IsFenced cache start w (idle-IsFenced start idle) path timely token)

    shown :
        (token : ℕ) (h : Holder)
        → w.holders token ≡ some h
        → h.took ≡ true
        → w.now < ends_at h
        → cache.get w.now h.lease.name w.cache ≡ some token
    shown token h found took early =
        let own = fits token h found in
        (own.1 took w.now (omega arith)).0 early ∙ ap (λ t. some t) own.0

    -- Every call of the cache is a step of its own: the `add` of an entry, the `get` and the `set`
    -- of a renewal, the `get` and the `delete` of a release; time passes and processes crash in
    -- between, in any order. In every state that the steps reach from one in which no process is
    -- inside a lock, and in which no `set` or `delete` has come after the end of the window in
    -- which its own `get` came: when a process that acquired a lock is before the end of the
    -- window that its last write opened, every other process that took the same lock and is still
    -- inside is past the end of its own.
    pub single_holder :
        (token other : ℕ) (h g : Holder)
        → w.holders token ≡ some h
        → IsLive w.now h
        → w.holders other ≡ some g
        → g.took ≡ true
        → h.lease.name ≡ g.lease.name
        → token ≢ other
        → ends_at g ≤ w.now
    single_holder token other h g found live found_other took same apart =
        elim (Bool-cases (leb (ends_at g) w.now)) [
          | inl over ↦ ground arith
          | inr early ↦
              let mine = shown token h found ((fits token h found).2 live.0) live.1 in
              let theirs = shown other g found_other took (ground arith) in
              absurd (
                apart (
                  owner (
                    sym mine
                    ∙ subst (λ n. cache.get w.now n w.cache ≡ some other) (sym same) theirs)))
        ]
      where
        owner : some token ≡ some other → token ≡ other
        owner e = ground arith

    -- Every call of the cache is a step of its own, as in `single_holder`. In every state that the
    -- steps reach from one in which no process is inside a lock, and in which no `set` or `delete`
    -- of a renewal or release has come after the end of the window in which its own `get` came:
    -- while a process that acquired a lock is before the end of its window, an `acquire` of that
    -- lock with any token and timeout is refused and writes nothing, and the process's own `renew`
    -- succeeds.
    pub acquire_held :
        (token timeout new : ℕ) (h : Holder)
        → w.holders token ≡ some h
        → IsLive w.now h
        → (acquire cache w.now h.lease.name timeout new w.cache ≡ (
          record { name = h.lease.name; token = new; timeout = timeout; acquired = false },
          w.cache,
        ))
          × ((renew cache w.now h.lease w.cache).0 ≡ true)
    unfolding acquire renew is_token
    acquire_held token timeout new h found live =
        let own = fits token h found in
        let p = shown token h found (own.2 live.0) live.1 in
        (
          rw (cache.add_present w.now timeout h.lease.name new token w.cache p) refl,
          rw (live.0, p, own.0, ==-refl token) refl,
        )
