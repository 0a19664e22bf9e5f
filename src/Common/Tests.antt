-- ===== src/Common/Tests.antt =====
-- The theorems of the locks and of the single flight, on a cache in memory.
use Prim.Native.String.{String}
use text.Mathlib.Text.{◌==◌ as ◌=s=◌}
use text.Mathlib.TextEquality.{eq_iff}
use openmagpie.Prelude.{
  ◌≤◌, ◌+◌, ℕ, ◌≡◌, ◌≢◌, refl, Bool, true, false, none, some, [], ◌∷◌, arith, ◌==◌,
}
use openmagpie.Common.Cache.{Cache}
use openmagpie.Common.Memory.{Memory, memory}
use openmagpie.Common.Locks.{LockSettings, acquire, renew, is_token}
use openmagpie.Common.Locks.World.{
  Holder, working, renewing, World, Reach, enter, asked, settle, refresh, is_late, ends_at, here,
  after, passed, entered, renewal, renewed,
}
use openmagpie.Common.Locks.Exclusion.{IsIdle, single_holder, acquire_held}
use openmagpie.Common.Locks.Renewer.{LeaseRenewer, lease_lost, run, renew_interval}
use openmagpie.Common.Locks.Renewer.Windows.{renew_or_raise, run-acquire}
use openmagpie.Common.Locks.Renewer.Timely.{tick_times, run-tick_times}
use openmagpie.Common.Commands.{Launch, execute}
use openmagpie.Common.Commands.SingleFlight.{execute-execute}

abbrev tokens : Cache String ℕ (Memory String ℕ)
tokens = memory (λ a b. a =s= b) eq_iff

abbrev empty : Memory String ℕ
empty key = none

abbrev idle : World (Memory String ℕ)
idle = record { now = 100; cache = empty; holders = λ token. none; late = false }

abbrev poll_key : String
poll_key = "feed_poll_lock:30"

-- A process takes the lock at 100, renews it from 150 to 155, and is still inside at 235, when
-- another comes.
abbrev holder : Holder
holder = record {
  lease = record { name = poll_key; token = 7; timeout = 60; acquired = true };
  took = true;
  stamped_at = 100;
  phase = working;
}

abbrev taken : World (Memory String ℕ)
taken = enter tokens poll_key 60 7 idle

abbrev tried : World (Memory String ℕ)
tried = enter tokens poll_key 60 8 taken

abbrev later : ℕ → World (Memory String ℕ) → World (Memory String ℕ)
later seconds w = record w { now = w.now + seconds }

abbrev checked : World (Memory String ℕ)
checked = settle tokens (some (record holder { phase = renewing 150 })) holder (later 50 taken)

abbrev renewed_world : World (Memory String ℕ)
renewed_world = refresh tokens 150 (record holder { phase = renewing 150 }) (later 5 checked)

abbrev joined : World (Memory String ℕ)
joined = enter tokens poll_key 60 8 (later 80 renewed_world)

idle-IsIdle : IsIdle idle
unfolding IsIdle
idle-IsIdle token = refl

path_to_taken : Reach tokens idle taken
path_to_taken = after idle taken here (entered idle poll_key 60 7 refl)

path_to_tried : Reach tokens idle tried
unfolding enter
path_to_tried = after taken tried path_to_taken (entered taken poll_key 60 8 refl)

path_to_joined : Reach tokens idle joined
unfolding enter settle refresh asked is_token
path_to_joined =
    after (later 80 renewed_world) joined
      (after renewed_world (later 80 renewed_world)
        (after (later 5 checked) renewed_world
          (after checked (later 5 checked)
            (after (later 50 taken) checked
              (after taken (later 50 taken) path_to_taken (passed taken 50))
              (renewal (later 50 taken) 7 holder refl refl))
            (passed checked 5))
          (renewed (later 5 checked) 7 150 (record holder { phase = renewing 150 }) refl refl))
        (passed renewed_world 80))
      (entered (later 80 renewed_world) poll_key 60 8 refl)

abbrev joiner : Holder
joiner = record {
  lease = record { name = poll_key; token = 8; timeout = 60; acquired = true };
  took = true;
  stamped_at = 235;
  phase = working;
}

single_holder_example : ends_at (record holder { stamped_at = 155 }) ≤ 235
unfolding enter settle refresh is_late
single_holder_example =
    single_holder tokens idle joined idle-IsIdle path_to_joined refl 8 7 joiner
      (record holder { stamped_at = 155 }) refl (refl, ground arith) refl refl refl (ground arith)

acquire_held_example :
    (acquire tokens 100 "feed_poll_lock:30" 60 9 tried.cache ≡ (
      record { name = "feed_poll_lock:30"; token = 9; timeout = 60; acquired = false },
      tried.cache,
    ))
    × ((renew tokens 100 holder.lease tried.cache).0 ≡ true)
unfolding enter
acquire_held_example =
    acquire_held tokens idle tried idle-IsIdle path_to_tried refl 7 60 9 holder refl
      (refl, ground arith)

-- The cache is out of reach at 160, the second tick.
abbrev raises : ℕ → Bool
raises now = now == 160

abbrev renewer_of_poll : LeaseRenewer
renewer_of_poll = record { lease_seconds = 90; max_hold = 600; started_at = 100 }

run-acquire_example :
    (acquire tokens 790 "feed_poll_lock:30" 90 8
      (run
        (renew_or_raise tokens raises)
        renewer_of_poll
        100
        (130 ∷ 160 ∷ 700 ∷ [])
        (acquire tokens 100 "feed_poll_lock:30" 90 7 empty)).1.1).0.acquired
    ≡ true
run-acquire_example =
    run-acquire tokens raises renewer_of_poll "feed_poll_lock:30" 7 8 90 790 empty
      (130 ∷ 160 ∷ 700 ∷ []) refl (omega arith)

run-tick_times_example :
    ((run
        (renew_or_raise tokens raises)
        renewer_of_poll
        100
        (tick_times (renew_interval 30) 100 4)
        (acquire tokens 100 "feed_poll_lock:30" 90 7 empty)).0
      ≢ lease_lost)
    × ((run
          (renew_or_raise tokens raises)
          renewer_of_poll
          100
          (tick_times (renew_interval 30) 100 4)
          (acquire tokens 100 "feed_poll_lock:30" 90 7 empty)).1.0.acquired
        ≡ true)
run-tick_times_example =
    run-tick_times tokens raises renewer_of_poll 30 "feed_poll_lock:30" 7 empty 4 (omega arith) refl
      refl (unfold renew_interval in λ t h. ground arith)

abbrev lock_settings : LockSettings
lock_settings = record {
  poll_lock_timeout_seconds = 600;
  feed_set_lock_timeout_seconds = 60;
  path_chain_lock_timeout_seconds = 30;
  digest_flush_lock_timeout_seconds = 600;
  job_lock_lease_seconds = 300;
  job_lock_max_hold_seconds = 86400;
  refresh_token_lock_timeout_seconds = 30;
}

abbrev pass : Launch ℕ
pass = record { started_at = 100; ticks = 200 ∷ 300 ∷ []; ended_at = 350; outcome = 1 }

abbrev next_pass : Launch ℕ
next_pass = record { started_at = 350; ticks = []; ended_at = 360; outcome = 2 }

execute-execute_example :
    ((execute tokens raises lock_settings "watches.process_due_runs" 7 pass empty).0 ≡ some 1)
    × ((execute tokens raises lock_settings "watches.process_due_runs" 8 next_pass
          (execute tokens raises lock_settings "watches.process_due_runs" 7 pass empty).1).0
        ≡ some 2)
execute-execute_example =
    execute-execute tokens raises lock_settings "watches.process_due_runs" 7 8 pass next_pass empty
      refl (omega arith) (omega arith, (omega arith, tt)) refl
