-- ===== src/Common/Locks/Renewer/Windows.antt =====
-- The renewer of apps/core/common/lease_renewer.py on a lock of the cache.
use Prim.Native.String.{String}
use openmagpie.Prelude.{
  ℕ, ◌+◌, ◌≤◌, ◌<◌, ◌≡◌, refl, subst, Bool, true, Option, none, some, List, [], ◌∷◌, leb,
  if◌then◌else◌, arith, Bool-cases, inl, inr, ◌∙◌,
}
use openmagpie.Common.Cache.{Cache}
use openmagpie.Common.Locks.{LockLease, acquire, renew, is_token}
use openmagpie.Common.Locks.Renewer.{LeaseRenewer, run, still_ours, next_ok}

module _ {C : Type 0} (cache : Cache String ℕ C) (raises : ℕ → Bool) where
  -- `LockLease.renew` on a backend that cannot be reached at some times, and raises then.
  unfoldable pub renew_or_raise : ℕ → LockLease × C → Option Bool × (LockLease × C)
  unfolding renew
  renew_or_raise now (lease, c) =
      let (ours, after, d) = renew cache now lease c in
      if raises now then (none, (lease, c)) else (some ours, (after, d))

  -- The lease is of the lock, and from some time on the key shows nothing.
  abbrev Lapses : ℕ → String → ℕ → LockLease × C → Type 0
  Lapses limit name timeout (lease, c) =
      (lease.name ≡ name)
      × (lease.timeout ≡ timeout)
      × ((t : ℕ) → limit ≤ t → cache.get t name c ≡ none)

  -- A renewal before `hold` gives the key no more than its own timeout.
  renew-Lapses :
      (now hold timeout : ℕ) (name : String) (s : LockLease × C)
      → now < hold
      → Lapses (hold + timeout) name timeout s
      → Lapses (hold + timeout) name timeout (renew_or_raise now s).1
  unfolding renew_or_raise renew
  renew-Lapses now hold timeout name (lease, c) early (named, timed, free) =
      elim (Bool-cases (raises now)) [
        | inl h ↦ rw h (named, timed, free)
        | inr h ↦ elim (Bool-cases lease.acquired) [
          | inr missed ↦ rw (h, missed) (named, timed, free)
          | inl took ↦ elim (Bool-cases (is_token lease.token (cache.get now lease.name c))) [
            | inr other ↦ rw (h, took, other) (named, timed, free)
            | inl ours ↦
                rw (h, took, ours)
                  (
                    named,
                    timed,
                    λ t late.
                        subst
                          (λ n.
                            cache.get t n (cache.set now lease.name lease.token lease.timeout c)
                            ≡ none)
                          named
                          (cache.get-set now t lease.timeout lease.name lease.token c (omega arith)
                            ∙ ground arith),
                  )
          ]
        ]
      ]

  run-Lapses :
      (r : LeaseRenewer) (timeout last_ok : ℕ) (name : String) (ticks : List ℕ) (s : LockLease × C)
      → Lapses (r.started_at + r.max_hold + timeout) name timeout s
      → Lapses
          (r.started_at + r.max_hold + timeout)
          name
          timeout
          (run renew_or_raise r last_ok ticks s).1
  unfolding run
  run-Lapses r timeout last_ok name [] s free = free
  run-Lapses r timeout last_ok name (now ∷ ticks) s free =
      elim (Bool-cases (leb (r.started_at + r.max_hold) now)) [
        | inl past ↦ rw past free
        | inr early ↦
            let next =
              renew-Lapses now (r.started_at + r.max_hold) timeout name s (ground arith) free in
            let outcome = (renew_or_raise now s).0 in
            elim (Bool-cases (still_ours r last_ok now outcome)) [
              | inl ours ↦
                  rw (early, ours)
                    (run-Lapses r timeout (next_ok last_ok now outcome) name ticks
                      (renew_or_raise now s).1 next)
              | inr gone ↦ rw (early, gone) next
            ]
      ]

  -- A lock that was free is acquired and renewed by a renewer. Whatever the clock shows at the
  -- ticks, whenever the cache is out of reach and however the renewer ends, an `acquire` by
  -- another token succeeds as soon as the maximal hold and one window have passed since the start.
  pub run-acquire :
      (r : LeaseRenewer) (name : String) (token new timeout later : ℕ) (c : C) (ticks : List ℕ)
      → cache.get r.started_at name c ≡ none
      → r.started_at + r.max_hold + r.lease_seconds ≤ later
      → (acquire cache later name timeout new
          (run renew_or_raise r r.started_at ticks
            (acquire cache r.started_at name r.lease_seconds token c)).1.1).0.acquired
        ≡ true
  unfolding acquire
  run-acquire r name token new timeout later c ticks free late =
      rw (cache.add_absent later timeout name new _ (rest.2 later late)) refl
    where
      first :
          Lapses
            (r.started_at + r.max_hold + r.lease_seconds)
            name
            r.lease_seconds
            (acquire cache r.started_at name r.lease_seconds token c)
      first = rw (cache.add_absent r.started_at r.lease_seconds name token c free) (
        refl,
        refl,
        λ t after.
            cache.get-set r.started_at t r.lease_seconds name token c (omega arith) ∙ ground arith,
      )

      rest :
          Lapses
            (r.started_at + r.max_hold + r.lease_seconds)
            name
            r.lease_seconds
            (run renew_or_raise r r.started_at ticks
              (acquire cache r.started_at name r.lease_seconds token c)).1
      rest =
          run-Lapses r r.lease_seconds r.started_at name ticks
            (acquire cache r.started_at name r.lease_seconds token c) first
