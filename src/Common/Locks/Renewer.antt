-- ===== src/Common/Locks/Renewer.antt =====
-- apps/core/common/lease_renewer.py: the thread that re-stamps a lease.
pub mod Windows
pub mod Timely
use openmagpie.Prelude.{
  ℕ, ◌+◌, ◌*◌, Bool, true, false, Option, none, some, List, [], ◌∷◌, ltb, leb, if◌then◌else◌,
}

-- In thirds of a second, as `timeout / 3` is a fraction: at least one second.
unfoldable pub renew_interval : ℕ → ℕ
renew_interval timeout = if leb 3 timeout then timeout else 3

-- How `LeaseRenewer.run` ends: stopped by the end of the `with`, past `max_hold`, the lease lost.
pub data Exit : Type 0 where
  stopped : Exit
  max_held : Exit
  lease_lost : Exit

pub record LeaseRenewer : Type 0 where
  pub lease_seconds : ℕ
  pub max_hold : ℕ
  pub started_at : ℕ

-- The judgment of one tick: a renewal that raises (`none`) keeps the lease for a window.
unfoldable pub still_ours : LeaseRenewer → ℕ → ℕ → Option Bool → Bool
still_ours r last_ok now none = ltb now (last_ok + r.lease_seconds)
still_ours r last_ok now (some ours) = ours

unfoldable pub next_ok : ℕ → ℕ → Option Bool → ℕ
next_ok last_ok now none = last_ok
next_ok last_ok now (some ours) = now

-- `renew` is the method of the `Renewable`, on the states `S` of the lease and of its backend. The
-- list has the clock at each tick up to the stop.
module _ {S : Type 0} (renew : ℕ → S → Option Bool × S) where
  unfoldable pub run : LeaseRenewer → ℕ → List ℕ → S → Exit × S
  unfolding still_ours next_ok
  run r last_ok [] s = (stopped, s)
  run r last_ok (now ∷ ticks) s =
      let (outcome, after) = renew now s in
      let rest = run r (next_ok last_ok now outcome) ticks after in
      if leb (r.started_at + r.max_hold) now
      then (max_held, s)
      else if still_ours r last_ok now outcome
      then rest
      else (lease_lost, after)
