-- ===== src/Common/Locks/Renewer/Timely.antt =====
-- The renewer of apps/core/common/lease_renewer.py that ticks in time.
use Prim.Native.String.{String}
use openmagpie.Prelude.{
  ℕ, zero, suc, ◌+◌, ◌*◌, ◌≤◌, ◌<◌, ◌≡◌, ◌≢◌, refl, subst, Bool, true, false, none, some, List, [],
  ◌∷◌, ltb, leb, if◌then◌else◌, arith, Bool-cases, inl, inr, ==-refl, ◌∙◌,
}
use openmagpie.Common.Cache.{Cache}
use openmagpie.Common.Locks.{LockLease, acquire, renew, is_token}
use openmagpie.Common.Locks.Renewer.{
  LeaseRenewer, lease_lost, run, still_ours, next_ok, renew_interval,
}
use openmagpie.Common.Locks.Renewer.Windows.{renew_or_raise}

-- Every tick is less than a window behind the last one at which the backend could be reached.
unfoldable pub IsTimely : (ℕ → Bool) → ℕ → ℕ → List ℕ → Type 0
IsTimely raises window last_ok [] = Unit
IsTimely raises window last_ok (now ∷ ticks) =
    (last_ok ≤ now)
    × (now < last_ok + window)
    × IsTimely raises window (if raises now then last_ok else now) ticks

ltb-true : (a b : ℕ) → a < b → ltb a b ≡ true
ltb-true a b h = ground arith

module _ {C : Type 0} (cache : Cache String ℕ C) (raises : ℕ → Bool) where
  -- The lease is acquired, and its key shows its token for a window.
  abbrev IsHeld : ℕ → ℕ → LockLease × C → Type 0
  IsHeld window last_ok (lease, c) =
      (lease.acquired ≡ true)
      × (lease.timeout ≡ window)
      × ((t : ℕ) → last_ok ≤ t → t < last_ok + window → cache.get t lease.name c ≡ some lease.token)

  run-IsHeld :
      (r : LeaseRenewer) (last_ok : ℕ) (ticks : List ℕ) (s : LockLease × C)
      → IsTimely raises r.lease_seconds last_ok ticks
      → IsHeld r.lease_seconds last_ok s
      → ((run (renew_or_raise cache raises) r last_ok ticks s).0 ≢ lease_lost)
        × ((run (renew_or_raise cache raises) r last_ok ticks s).1.0.acquired ≡ true)
  unfolding run IsTimely renew_or_raise renew still_ours next_ok is_token
  run-IsHeld r last_ok [] s timely held = ((λ e. ground arith), held.0)
  run-IsHeld r last_ok (now ∷ ticks) (lease, c) (late, early, timely) (took, timed, shown) =
      elim (Bool-cases (leb (r.started_at + r.max_hold) now)) [
        | inl past ↦ rw past ((λ e. ground arith), took)
        | inr before ↦ elim (Bool-cases (raises now)) [
          | inl h ↦
              rw (before, h, ltb-true now (last_ok + r.lease_seconds) early)
                (run-IsHeld r last_ok ticks (lease, c)
                  (subst (λ b. IsTimely raises r.lease_seconds (if b then last_ok else now) ticks) h
                    timely)
                  (took, timed, shown))
          | inr h ↦
              rw (before, h, took, shown now late early, ==-refl lease.token)
                (run-IsHeld r now ticks
                  (
                    record lease { acquired = true },
                    cache.set now lease.name lease.token lease.timeout c,
                  )
                  (subst (λ b. IsTimely raises r.lease_seconds (if b then last_ok else now) ticks) h
                    timely)
                  (
                    refl,
                    timed,
                    λ t since before_end.
                        cache.get-set now t lease.timeout lease.name lease.token c since
                        ∙ ground arith,
                  ))
        ]
      ]

  -- A lease that was free, renewed by ticks in time, is never given up for lost and is still held.
  run-IsTimely :
      (r : LeaseRenewer) (name : String) (token : ℕ) (c : C) (ticks : List ℕ)
      → cache.get r.started_at name c ≡ none
      → IsTimely raises r.lease_seconds r.started_at ticks
      → ((run
            (renew_or_raise cache raises)
            r
            r.started_at
            ticks
            (acquire cache r.started_at name r.lease_seconds token c)).0
          ≢ lease_lost)
        × ((run
              (renew_or_raise cache raises)
              r
              r.started_at
              ticks
              (acquire cache r.started_at name r.lease_seconds token c)).1.0.acquired
            ≡ true)
  unfolding acquire
  run-IsTimely r name token c ticks free timely =
      rw (cache.add_absent r.started_at r.lease_seconds name token c free) (
        run-IsHeld r r.started_at ticks
          (
            record { name = name; token = token; timeout = r.lease_seconds; acquired = true },
            cache.set r.started_at name token r.lease_seconds c,
          )
          timely
          (
            refl,
            refl,
            λ t since early.
                cache.get-set r.started_at t r.lease_seconds name token c since ∙ ground arith,
          ))

-- The clock at the ticks that `run` waits for, `interval` apart.
unfoldable pub tick_times : ℕ → ℕ → ℕ → List ℕ
tick_times interval from zero = []
tick_times interval from (suc n) = (from + interval) ∷ tick_times interval (from + interval) n

module _ (raises : ℕ → Bool) (window interval : ℕ) (short : 2 * interval < window)
    (recovers : (t : ℕ) → raises t ≡ true → raises (t + interval) ≡ false) where
  interval-IsTimely :
      (n from : ℕ)
      → IsTimely raises window from (tick_times interval from n)
        × (raises (from + interval) ≡ true
            → IsTimely raises window from (tick_times interval (from + interval) n))
  unfolding IsTimely tick_times
  interval-IsTimely zero from = (tt, λ h. tt)
  interval-IsTimely (suc n) from = (
    (
      omega arith,
      omega arith,
      elim (Bool-cases (raises (from + interval))) [
        | inl h ↦ rw h ((interval-IsTimely n from).1 h)
        | inr h ↦ rw h ((interval-IsTimely n (from + interval)).0)
      ],
    ),
    λ h. (
      omega arith,
      omega arith,
      rw (recovers (from + interval) h) ((interval-IsTimely n (from + interval + interval)).0),
    ),
  )

-- A lock that was free is acquired for a window of at least three seconds and renewed at ticks of
-- `renew_interval`, with three units of time to a second. If no two ticks in a row find the cache
-- out of reach, the renewer never gives the lease up for lost and ends with it acquired, after any
-- number of ticks.
pub run-tick_times :
    {C : Type 0} (cache : Cache String ℕ C) (raises : ℕ → Bool) (r : LeaseRenewer) (timeout : ℕ)
    (name : String) (token : ℕ) (c : C) (n : ℕ)
    → 3 ≤ timeout
    → r.lease_seconds ≡ 3 * timeout
    → cache.get r.started_at name c ≡ none
    → ((t : ℕ) → raises t ≡ true → raises (t + renew_interval timeout) ≡ false)
    → ((run
          (renew_or_raise cache raises)
          r
          r.started_at
          (tick_times (renew_interval timeout) r.started_at n)
          (acquire cache r.started_at name r.lease_seconds token c)).0
        ≢ lease_lost)
      × ((run
            (renew_or_raise cache raises)
            r
            r.started_at
            (tick_times (renew_interval timeout) r.started_at n)
            (acquire cache r.started_at name r.lease_seconds token c)).1.0.acquired
          ≡ true)
run-tick_times cache raises r timeout name token c n long window free recovers =
    run-IsTimely cache raises r name token c (tick_times (renew_interval timeout) r.started_at n)
      free
      (interval-IsTimely raises r.lease_seconds (renew_interval timeout)
        (unfold renew_interval in ground arith) recovers n r.started_at).0
