-- ===== src/Schema/Tests.antt =====
-- The theorem of the run windows, at a request with one open and one closed window.
use openmagpie.Prelude.{refl, none, some}
use openmagpie.Schema.RunWindows.{
  duration, days, keyword, now_keyword, RunWindows, RawWindows, resolve_run_windows,
}
use openmagpie.Schema.RunWindows.Order.{IsWindow, resolve_run_windows-IsWindow}

abbrev raw : RawWindows
raw = record {
  occurred_since = none;
  occurred_until = some (keyword now_keyword);
  completed_since = some (duration 2 days);
  completed_until = none;
}

abbrev windows : RunWindows
windows = record {
  occurred_since = some 395200;
  occurred_until = some 1000000;
  completed_since = some 827200;
  completed_until = none;
}

resolve_run_windows-IsWindow_example :
    IsWindow windows.occurred_since windows.occurred_until
    × IsWindow windows.completed_since windows.completed_until
resolve_run_windows-IsWindow_example =
    resolve_run_windows-IsWindow raw 1000000 windows (unfold resolve_run_windows in refl)
