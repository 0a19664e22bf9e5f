-- ===== src/Common/Commands/SingleFlight.antt =====
-- The single flight of apps/core/common/commands.py.
use Prim.Native.String.{String}
use openmagpie.Prelude.{
  ℕ, ◌+◌, ◌≤◌, ◌≡◌, refl, subst, sym, ◌∙◌, Bool, true, none, some, List, [], ◌∷◌, leb, arith,
  Bool-cases, Option-cases, inl, inr, All, ==-refl,
}
use openmagpie.Common.Cache.{Cache}
use openmagpie.Common.Locks.{
  LockSettings, LockLease, acquire, release, renew, is_token, job_lock_key,
}
use openmagpie.Common.Locks.Renewer.{LeaseRenewer, run, still_ours, next_ok}
use openmagpie.Common.Locks.Renewer.Windows.{renew_or_raise}
use openmagpie.Common.Commands.{Launch, execute, renewer}

module _ {C : Type 0} (cache : Cache String ℕ C) (raises : ℕ → Bool) where
  -- From a time on, the key shows nothing or the token.
  abbrev Shows : ℕ → String → ℕ → LockLease × C → Type 0
  Shows ended name token (lease, c) =
      (lease.name ≡ name)
      × (lease.token ≡ token)
      × ((t owner : ℕ) → ended ≤ t → cache.get t name c ≡ some owner → owner ≡ token)

  set-Shows :
      (now ended t owner timeout token : ℕ) (name : String) (c : C)
      → now ≤ ended
      → ended ≤ t
      → cache.get t name (cache.set now name token timeout c) ≡ some owner
      → owner ≡ token
  set-Shows now ended t owner timeout token name c early late shown =
      let e = sym (cache.get-set now t timeout name token c (omega arith)) ∙ shown in ground arith

  renew-Shows :
      (now ended : ℕ) (name : String) (token : ℕ) (s : LockLease × C)
      → now ≤ ended
      → Shows ended name token s
      → Shows ended name token (renew_or_raise cache raises now s).1
  unfolding renew_or_raise renew
  renew-Shows now ended name token (lease, c) early (named, own, shows) =
      elim (Bool-cases (raises now)) [
        | inl h ↦ rw h (named, own, shows)
        | inr h ↦ elim (Bool-cases lease.acquired) [
          | inr missed ↦ rw (h, missed) (named, own, shows)
          | inl took ↦ elim (Bool-cases (is_token lease.token (cache.get now lease.name c))) [
            | inr other ↦ rw (h, took, other) (named, own, shows)
            | inl ours ↦
                rw (h, took, ours, own)
                  (
                    named,
                    refl,
                    λ t owner late shown.
                        set-Shows now ended t owner lease.timeout token name c early late (
                          subst
                            (λ n.
                              cache.get t name (cache.set now n token lease.timeout c) ≡ some owner)
                            named shown),
                  )
          ]
        ]
      ]

  run-Shows :
      (r : LeaseRenewer) (last_ok ended : ℕ) (name : String) (token : ℕ) (ticks : List ℕ)
      (s : LockLease × C)
      → All (λ now. now ≤ ended) ticks
      → Shows ended name token s
      → Shows ended name token (run (renew_or_raise cache raises) r last_ok ticks s).1
  unfolding run
  run-Shows r last_ok ended name token [] s early shows = shows
  run-Shows r last_ok ended name token (now ∷ ticks) s (first, early) shows =
      elim (Bool-cases (leb (r.started_at + r.max_hold) now)) [
        | inl past ↦ rw past shows
        | inr before ↦
            let next = renew-Shows now ended name token s first shows in
            let outcome = (renew_or_raise cache raises now s).0 in
            elim (Bool-cases (still_ours r last_ok now outcome)) [
              | inl ours ↦
                  rw (before, ours)
                    (run-Shows r (next_ok last_ok now outcome) ended name token ticks
                      (renew_or_raise cache raises now s).1 early next)
              | inr gone ↦ rw (before, gone) next
            ]
      ]

  -- What the `finally` leaves of the process's own key.
  release-free :
      (now token : ℕ) (name : String) (c : C)
      → ((owner : ℕ) → cache.get now name c ≡ some owner → owner ≡ token)
      → cache.get now name (release cache now true name token c) ≡ none
  unfolding release is_token
  release-free now token name c shows = elim (Option-cases (cache.get now name c)) [
    | inl free ↦ rw (free, free) refl
    | inr (owner, shown) ↦
        rw (shown, shows owner shown, ==-refl token) (cache.get-delete now name c)
  ]

module _ {C R : Type 0} (cache : Cache String ℕ C) (raises : ℕ → Bool) (s : LockSettings) where
  -- A launch that finds the lock free runs the command, and leaves the lock free at its end.
  free-execute :
      (name : String) (token : ℕ) (launch : Launch R) (c : C)
      → cache.get launch.started_at (job_lock_key name) c ≡ none
      → launch.started_at ≤ launch.ended_at
      → All (λ now. now ≤ launch.ended_at) launch.ticks
      → ((execute cache raises s name token launch c).0 ≡ some launch.outcome)
        × (cache.get launch.ended_at
              (job_lock_key name)
              (execute cache raises s name token launch c).1
            ≡ none)
  unfolding execute acquire
  free-execute name token launch c free late ticks =
      rw
        (cache.add_absent launch.started_at s.job_lock_lease_seconds (job_lock_key name) token c
          free)
        (
          refl,
          release-free cache raises launch.ended_at token (job_lock_key name) _
              (λ owner. shows.2 launch.ended_at owner (omega arith)),
        )
    where
      key : String
      key = job_lock_key name

      first : LockLease × C
      first = (
        record { name = key; token = token; timeout = s.job_lock_lease_seconds; acquired = true },
        cache.set launch.started_at key token s.job_lock_lease_seconds c,
      )

      shows :
          Shows cache raises launch.ended_at key token
            (run
              (renew_or_raise cache raises)
              (renewer s launch.started_at)
              launch.started_at
              launch.ticks
              first).1
      shows =
          run-Shows cache raises (renewer s launch.started_at) launch.started_at launch.ended_at key
            token launch.ticks first ticks
            (
              refl,
              refl,
              λ t owner after shown.
                  set-Shows cache raises launch.started_at launch.ended_at t owner
                    s.job_lock_lease_seconds token key c late after shown,
            )

  runs :
      (name : String) (token : ℕ) (launch : Launch R) (c : C)
      → cache.get launch.started_at (job_lock_key name) c ≡ none
      → (execute cache raises s name token launch c).0 ≡ some launch.outcome
  unfolding execute acquire
  runs name token launch c free =
      rw
        (cache.add_absent launch.started_at s.job_lock_lease_seconds (job_lock_key name) token c
          free)
        refl

  -- A launch of a job that finds its lock free, and whose ticks are not after its end, runs its
  -- command; the launch that starts at its end runs too.
  pub execute-execute :
      (name : String) (token next : ℕ) (launch again : Launch R) (c : C)
      → cache.get launch.started_at (job_lock_key name) c ≡ none
      → launch.started_at ≤ launch.ended_at
      → All (λ now. now ≤ launch.ended_at) launch.ticks
      → launch.ended_at ≡ again.started_at
      → ((execute cache raises s name token launch c).0 ≡ some launch.outcome)
        × ((execute cache raises s name next again (execute cache raises s name token launch c).1).0
            ≡ some again.outcome)
  execute-execute name token next launch again c free late ticks next_up =
      let (ran, left) = free-execute name token launch c free late ticks in
      (
        ran,
        runs name next again (execute cache raises s name token launch c).1 (
            subst
              (λ t.
                cache.get t (job_lock_key name) (execute cache raises s name token launch c).1
                ≡ none)
              next_up left),
      )

  -- A launch that finds the lock held by any process returns at once: it runs nothing and leaves the
  -- cache as it is.
  execute_held :
      (name : String) (token owner : ℕ) (launch : Launch R) (c : C)
      → cache.get launch.started_at (job_lock_key name) c ≡ some owner
      → execute cache raises s name token launch c ≡ (none, c)
  unfolding execute acquire
  execute_held name token owner launch c held =
      rw
        (cache.add_present launch.started_at s.job_lock_lease_seconds (job_lock_key name) token
          owner c held)
        refl
