-- ===== src/Schema/RunWindows.antt =====
-- packages/openmagpie-schema/src/openmagpie_schema/run_windows.py: the values of a time window, as
-- the regular expressions and `datetime.fromisoformat` read them. A time is seconds since
-- `datetime.min`, a Monday.
pub mod Order
use openmagpie.Prelude.{
  ℕ, ◌-◌, ◌*◌, ◌/◌, ◌%◌, Bool, true, false, Option, none, some, leb, if◌then◌else◌,
}

pub data WindowKeyword : Type 0 where
  now_keyword today yesterday this_week oldest : WindowKeyword

-- `_REL_UNIT`.
pub data RelUnit : Type 0 where
  seconds minutes hours days weeks : RelUnit

abbrev pub unit_seconds : RelUnit → ℕ
unit_seconds seconds = 1
unit_seconds minutes = 60
unit_seconds hours = 3600
unit_seconds days = 86400
unit_seconds weeks = 604800

-- A raw value: a keyword, `7d`, an ISO datetime, or anything else.
pub data WindowValue : Type 0 where
  keyword : WindowKeyword → WindowValue
  duration : (amount : ℕ) → RelUnit → WindowValue
  iso : (at : ℕ) → WindowValue
  malformed : WindowValue

abbrev day : ℕ
day = 86400

unfoldable pub start_of_today : ℕ → ℕ
start_of_today now = now - now % day

-- `datetime.weekday()`: Monday is 0.
unfoldable pub weekday : ℕ → ℕ
weekday at = at / day % 7

-- `_resolve_keyword`: `none` is the ValueError.
unfoldable pub resolve_keyword : WindowKeyword → ℕ → Option ℕ → Option ℕ
unfolding start_of_today weekday
resolve_keyword now_keyword now floor = some now
resolve_keyword today now floor = some (start_of_today now)
resolve_keyword yesterday now floor = some (start_of_today now - day)
resolve_keyword this_week now floor = some (start_of_today now - weekday (start_of_today now) * day)
resolve_keyword oldest now floor = floor

-- `resolve_window_value`: `none` is the ValueError. A date before `datetime.min` overflows.
unfoldable pub resolve_window_value : WindowValue → ℕ → Option ℕ → Option ℕ
unfolding resolve_keyword
resolve_window_value (keyword k) now floor = resolve_keyword k now floor
resolve_window_value (duration amount unit) now floor =
    if leb (amount * unit_seconds unit) now then some (now - amount * unit_seconds unit) else none
resolve_window_value (iso at) now floor = some at
resolve_window_value malformed now floor = none

-- `RunWindows`, the bounds `[since, until)`: `none` is no bound.
pub record RunWindows : Type 0 where
  pub occurred_since : Option ℕ
  pub occurred_until : Option ℕ
  pub completed_since : Option ℕ
  pub completed_until : Option ℕ

-- The raw values by their `RUN_WINDOW_PARAMS` names.
pub record RawWindows : Type 0 where
  pub occurred_since : Option WindowValue
  pub occurred_until : Option WindowValue
  pub completed_since : Option WindowValue
  pub completed_until : Option WindowValue

abbrev pub run_window_default_span : ℕ
run_window_default_span = 7 * 86400

-- One raw value, if it is there: the outer `none` is the ValueError.
unfoldable pub resolve_bound : Option WindowValue → ℕ → Option (Option ℕ)
unfolding resolve_window_value
resolve_bound none now = some none
resolve_bound (some raw) now = elim (resolve_window_value raw now none) [
  | none ↦ none
  | some at ↦ some (some at)
]

-- The guards on one base, `occurred` or `completed`.
unfoldable pub bound_window : Option ℕ → Option ℕ → Option (Option ℕ × Option ℕ)
bound_window since none = some (since, none)
bound_window (some since) (some until) =
    if leb until since then none else some (some since, some until)
bound_window none (some until) =
    if leb run_window_default_span until
    then some (some (until - run_window_default_span), some until)
    else none

-- `since` and `until` of one base.
unfoldable pub resolve_base :
    Option WindowValue → Option WindowValue → ℕ → Option (Option ℕ × Option ℕ)
unfolding resolve_bound bound_window
resolve_base since until now = elim (resolve_bound since now) [
  | none ↦ none
  | some a ↦ elim (resolve_bound until now) [ none ↦ none | some b ↦ bound_window a b ]
]

-- `resolve_run_windows`: `none` is the ValueError.
unfoldable pub resolve_run_windows : RawWindows → ℕ → Option RunWindows
unfolding resolve_base
resolve_run_windows raw now = elim (resolve_base raw.occurred_since raw.occurred_until now) [
  | none ↦ none
  | some (occurred_since, occurred_until) ↦
      elim (resolve_base raw.completed_since raw.completed_until now) [
        | none ↦ none
        | some (completed_since, completed_until) ↦ some (record {
          occurred_since = occurred_since;
          occurred_until = occurred_until;
          completed_since = completed_since;
          completed_until = completed_until;
        })
      ]
]
