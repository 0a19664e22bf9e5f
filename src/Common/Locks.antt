-- ===== src/Common/Locks.antt =====
-- apps/core/common/locks.py: try-locks on the cache, with a lease.
pub mod World
pub mod Safety
pub mod Exclusion
pub mod Renewer
use Prim.Native.String.{String, ◌++◌}
use openmagpie.Prelude.{ℕ, Bool, true, false, not, ◌&&◌, Option, none, some, ◌==◌, if◌then◌else◌}
use openmagpie.Common.Cache.{Cache}

-- A token is `uuid.uuid4().hex`.
pub record LockLease : Type 0 where
  pub name : String
  pub token : ℕ
  pub timeout : ℕ
  pub acquired : Bool

-- `cache.get(name) == token`.
unfoldable pub is_token : ℕ → Option ℕ → Bool
is_token token none = false
is_token token (some owner) = owner == token

module _ {C : Type 0} (cache : Cache String ℕ C) where
  -- The first call of `LockLease.renew` and of the `finally` of `named_lock`.
  abbrev pub owns : ℕ → String → ℕ → C → Bool
  owns now name token c = is_token token (cache.get now name c)

  -- The second call of `LockLease.renew`.
  abbrev pub stamp : ℕ → LockLease → C → C
  stamp now lease c = cache.set now lease.name lease.token lease.timeout c

  -- `LockLease.renew`, when no other process comes between its two calls.
  unfoldable pub renew : ℕ → LockLease → C → Bool × LockLease × C
  unfolding is_token
  renew now lease c =
      if not lease.acquired
      then (false, lease, c)
      else if owns now lease.name lease.token c
      then (true, lease, stamp now lease c)
      else (false, record lease { acquired = false }, c)

  -- `named_lock` up to its `yield`.
  unfoldable pub acquire : ℕ → String → ℕ → ℕ → C → LockLease × C
  acquire now name timeout token c =
      let (acquired, after) = cache.add now name token timeout c in
      (record { name = name; token = token; timeout = timeout; acquired = acquired }, after)

  -- The `finally` of `named_lock`, likewise: `acquired` is what `cache.add` gave.
  unfoldable pub release : ℕ → Bool → String → ℕ → C → C
  unfolding is_token
  release now acquired name token c =
      if acquired && owns now name token c then cache.delete name c else c

-- The settings of apps/core/conf/settings/base.py, in seconds.
pub record LockSettings : Type 0 where
  pub poll_lock_timeout_seconds : ℕ
  pub feed_set_lock_timeout_seconds : ℕ
  pub path_chain_lock_timeout_seconds : ℕ
  pub digest_flush_lock_timeout_seconds : ℕ
  pub job_lock_lease_seconds : ℕ
  pub job_lock_max_hold_seconds : ℕ
  pub refresh_token_lock_timeout_seconds : ℕ

-- The locks, each with what its key is made of. `sha256` is the hash's first 32 digits.
pub data Scope : Type 0 where
  poll_lock : (feed_id : String) → Scope
  feed_set_lock : (feed_id : String) → Scope
  path_chain_lock : (path_id : String) → Scope
  digest_flush_lock : (action_id : String) → Scope
  job_lock : (name : String) → Scope
  refresh_token_lock : (refresh_token : String) → Scope

abbrev job_lock_key_prefix : String
job_lock_key_prefix = "job_lock:"

unfoldable pub job_lock_key : String → String
job_lock_key name = job_lock_key_prefix ++ name

module _ (sha256 : String → String) where
  unfoldable pub lock_name : Scope → String
  unfolding job_lock_key
  lock_name (poll_lock feed_id) = "feed_poll_lock:" ++ feed_id
  lock_name (feed_set_lock feed_id) = "feed_set_lock:" ++ feed_id
  lock_name (path_chain_lock path_id) = "path_chain_lock:" ++ path_id
  lock_name (digest_flush_lock action_id) = "digest_flush_lock:" ++ action_id
  lock_name (job_lock name) = job_lock_key name
  lock_name (refresh_token_lock refresh_token) = "refresh_token_lock:" ++ sha256 refresh_token

unfoldable pub lock_timeout : LockSettings → Scope → ℕ
lock_timeout s (poll_lock feed_id) = s.poll_lock_timeout_seconds
lock_timeout s (feed_set_lock feed_id) = s.feed_set_lock_timeout_seconds
lock_timeout s (path_chain_lock path_id) = s.path_chain_lock_timeout_seconds
lock_timeout s (digest_flush_lock action_id) = s.digest_flush_lock_timeout_seconds
lock_timeout s (job_lock name) = s.job_lock_lease_seconds
lock_timeout s (refresh_token_lock refresh_token) = s.refresh_token_lock_timeout_seconds
