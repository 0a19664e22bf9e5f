-- ===== src/Common/Locks/World.antt =====
-- The holders of apps/core/common/locks.py as processes that share the cache, each call of which is a
-- step of its own.
use Prim.Native.String.{String}
use openmagpie.Prelude.{
  ℕ, ◌+◌, ◌≡◌, Bool, false, not, ◌&&◌, ◌||◌, Option, none, some, ◌==◌, if◌then◌else◌, ltb, leb,
}
use openmagpie.Common.Cache.{Cache}
use openmagpie.Common.Locks.{LockLease, owns, stamp, acquire}

-- Between the two calls of a renewal or of a release, a process has found its token at a time. The
-- `with` of a renewer joins its thread, so a renewal is over when the release begins.
pub data Phase : Type 0 where
  working : Phase
  renewing : (checked_at : ℕ) → Phase
  leaving : (checked_at : ℕ) → Phase

-- A process inside a `with named_lock(...)`: its lease, what `cache.add` gave, and the time of the
-- last write of its token, which no code keeps.
pub record Holder : Type 0 where
  pub lease : LockLease
  pub took : Bool
  pub stamped_at : ℕ
  pub phase : Phase

-- The processes are known by their tokens; `late` is whether the second call of a renewal or a
-- release has come after the end of the window in which its first call came.
pub record World (C : Type 0) : Type 0 where
  pub now : ℕ
  pub cache : C
  pub holders : ℕ → Option Holder
  pub late : Bool

unfoldable pub assign : ℕ → Option Holder → (ℕ → Option Holder) → ℕ → Option Holder
assign token h holders other = if other == token then h else holders other

-- The end of the window that the last write opened.
abbrev pub ends_at : Holder → ℕ
ends_at h = h.stamped_at + h.lease.timeout

unfoldable pub is_late : ℕ → ℕ → Holder → Bool
is_late checked_at now h = ltb checked_at (ends_at h) && leb (ends_at h) now

module _ {C : Type 0} (cache : Cache String ℕ C) where
  unfoldable pub enter : String → ℕ → ℕ → World C → World C
  unfolding acquire assign
  enter name timeout token w =
      let (lease, c) = acquire cache w.now name timeout token w.cache in
      record w {
        cache = c;
        holders =
            assign token
              (some (record {
                lease = lease;
                took = lease.acquired;
                stamped_at = w.now;
                phase = working;
              }))
              w.holders;
      }

  -- The holder after the `get` of a renewal.
  unfoldable pub asked : ℕ → C → Holder → Holder
  asked now c h =
      if not h.lease.acquired
      then h
      else if owns cache now h.lease.name h.lease.token c
      then record h { phase = renewing now }
      else record h { lease = record h.lease { acquired = false } }

  -- The holder after the `get` of a release: without its token it is out.
  unfoldable pub unwound : ℕ → C → Holder → Option Holder
  unwound now c h =
      if h.took && owns cache now h.lease.name h.lease.token c
      then some (record h { phase = leaving now })
      else none

  unfoldable pub settle : Option Holder → Holder → World C → World C
  unfolding assign
  settle entry h w = record w { holders = assign h.lease.token entry w.holders }

  -- The `set` of a renewal.
  unfoldable pub refresh : ℕ → Holder → World C → World C
  unfolding assign is_late
  refresh checked_at h w = record w {
    cache = stamp cache w.now h.lease w.cache;
    holders =
        assign h.lease.token (some (record h { stamped_at = w.now; phase = working })) w.holders;
    late = w.late || is_late checked_at w.now h;
  }

  -- The `delete` of a release.
  unfoldable pub leave : ℕ → Holder → World C → World C
  unfolding assign is_late
  leave checked_at h w = record w {
    cache = cache.delete h.lease.name w.cache;
    holders = assign h.lease.token none w.holders;
    late = w.late || is_late checked_at w.now h;
  }

  -- One step of any process. A `crashed` process never renews or releases.
  pub data Step : World C → World C → Type 0 where
    passed : (w : World C) (seconds : ℕ) → Step w (record w { now = w.now + seconds })
    entered :
        (w : World C) (name : String) (timeout token : ℕ)
        → w.holders token ≡ none
        → Step w (enter name timeout token w)
    renewal :
        (w : World C) (token : ℕ) (h : Holder)
        → w.holders token ≡ some h
        → h.phase ≡ working
        → Step w (settle (some (asked w.now w.cache h)) h w)
    renewed :
        (w : World C) (token checked_at : ℕ) (h : Holder)
        → w.holders token ≡ some h
        → h.phase ≡ renewing checked_at
        → Step w (refresh checked_at h w)
    exit :
        (w : World C) (token : ℕ) (h : Holder)
        → w.holders token ≡ some h
        → h.phase ≡ working
        → Step w (settle (unwound w.now w.cache h) h w)
    left :
        (w : World C) (token checked_at : ℕ) (h : Holder)
        → w.holders token ≡ some h
        → h.phase ≡ leaving checked_at
        → Step w (leave checked_at h w)
    crashed :
        (w : World C) (token : ℕ) (h : Holder)
        → w.holders token ≡ some h
        → Step w (record w { holders = assign token none w.holders })

  pub data Reach (start : World C) : World C → Type 0 where
    here : Reach start start
    after : (w v : World C) → Reach start w → Step w v → Reach start v
