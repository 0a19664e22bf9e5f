-- ===== src/Common/Commands.antt =====
-- apps/core/common/commands.py: a management command that does not run twice at once.
pub mod SingleFlight
use Prim.Native.String.{String, ◌++◌, len, slice}
use text.Mathlib.Text.{find?}
use openmagpie.Prelude.{ℕ, ◌+◌, Bool, Option, none, some, List, if◌then◌else◌}
use openmagpie.Common.Cache.{Cache}
use openmagpie.Common.Locks.{LockSettings, LockLease, acquire, release, job_lock_key}
use openmagpie.Common.Locks.Renewer.{LeaseRenewer, run}
use openmagpie.Common.Locks.Renewer.Windows.{renew_or_raise}

abbrev commands_marker : String
commands_marker = ".management.commands."

-- `str.partition`, with `none` where the separator is absent.
unfoldable pub partition : String → String → Option (String × String)
partition text sep = elim (find? text sep) [
  | none ↦ none
  | some at ↦ some (slice text 0 at, slice text (at + len sep) (len text))
]

-- `SingleFlightCommand.resolve_job_name`: `none` is ImproperlyConfigured.
unfoldable pub resolve_job_name : Option String → String → Option String
unfolding partition
resolve_job_name (some (String.◌∷◌ c name)) module_name = some (String.◌∷◌ c name)
resolve_job_name _ module_name = elim (partition module_name commands_marker) [
  | none ↦ none
  | some (app, command) ↦ some (app ++ "." ++ command)
]

-- One launch of a command: its start, the clock at the renewer's ticks, its end and what it returns
-- or raises.
pub record Launch (R : Type 0) : Type 0 where
  pub started_at : ℕ
  pub ticks : List ℕ
  pub ended_at : ℕ
  pub outcome : R

abbrev pub renewer : LockSettings → ℕ → LeaseRenewer
renewer s started_at = record {
  lease_seconds = s.job_lock_lease_seconds;
  max_hold = s.job_lock_max_hold_seconds;
  started_at = started_at;
}

module _ {C R : Type 0} (cache : Cache String ℕ C) (raises : ℕ → Bool) (s : LockSettings) where
  -- `SingleFlightCommand.execute` for a resolved name: `none` is a pass that is skipped.
  unfoldable pub execute : String → ℕ → Launch R → C → Option R × C
  unfolding acquire release run
  execute name token launch c =
      let key = job_lock_key name in
      let (lease, held) = acquire cache launch.started_at key s.job_lock_lease_seconds token c in
      let after =
        (run (renew_or_raise cache raises) (renewer s launch.started_at) launch.started_at
          launch.ticks (lease, held)).1.1 in
      if lease.acquired
      then (some launch.outcome, release cache launch.ended_at lease.acquired key token after)
      else (none, held)
