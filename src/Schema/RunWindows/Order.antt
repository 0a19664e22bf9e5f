-- ===== src/Schema/RunWindows/Order.antt =====
-- The order of the bounds that run_windows.py resolves.
use openmagpie.Prelude.{
  ℕ, ◌+◌, ◌*◌, ◌≤◌, ◌<◌, ◌≡◌, Option, none, some, arith, leb, Bool-cases, Option-cases, inl, inr,
  subst,
}
use openmagpie.Schema.RunWindows.{
  WindowKeyword, now_keyword, today, yesterday, this_week, oldest, start_of_today, weekday,
  resolve_keyword, WindowValue, RunWindows, RawWindows, bound_window, resolve_bound, resolve_base,
  resolve_run_windows, run_window_default_span,
}

-- `[since, until)` has an end only with a start, and is not empty.
unfoldable pub IsWindow : Option ℕ → Option ℕ → Type 0
IsWindow since none = Unit
IsWindow none (some until) = ⊥
IsWindow (some since) (some until) = since < until

-- What a call gives, if it gives anything.
abbrev Given : Option (Option ℕ × Option ℕ) → Type 0
Given none = Unit
Given (some (since, until)) = IsWindow since until

bound_window-IsWindow : (since until : Option ℕ) → Given (bound_window since until)
unfolding bound_window IsWindow
bound_window-IsWindow since none = tt
bound_window-IsWindow (some since) (some until) = elim (Bool-cases (leb until since)) [
  | inl h ↦ rw h tt
  | inr h ↦ rw h (ground arith)
]
bound_window-IsWindow none (some until) = elim (Bool-cases (leb run_window_default_span until)) [
  | inl h ↦ rw h (ground arith)
  | inr h ↦ rw h tt
]

resolve_base-IsWindow :
    (since until : Option WindowValue) (now : ℕ) → Given (resolve_base since until now)
unfolding resolve_base
resolve_base-IsWindow since until now = elim (Option-cases (resolve_bound since now)) [
  | inl h ↦ rw (h, Given) tt
  | inr (a, h) ↦ elim (Option-cases (resolve_bound until now)) [
    | inl k ↦ rw (h, k, Given) tt
    | inr (b, k) ↦ rw (h, k, Given) (bound_window-IsWindow a b)
  ]
]

-- In the bounds that `resolve_run_windows` gives, an end of the `occurred` or of the `completed`
-- window has a start that is before it.
pub resolve_run_windows-IsWindow :
    (raw : RawWindows) (now : ℕ) (w : RunWindows)
    → resolve_run_windows raw now ≡ some w
    → IsWindow w.occurred_since w.occurred_until × IsWindow w.completed_since w.completed_until
unfolding resolve_run_windows
resolve_run_windows-IsWindow raw now w e =
    elim (Option-cases (resolve_base raw.occurred_since raw.occurred_until now)) [
      | inl h ↦ absurd (ground arith)
      | inr ((a, b), h) ↦
          elim (Option-cases (resolve_base raw.completed_since raw.completed_until now)) [
            | inl k ↦ absurd (ground arith)
            | inr ((c, d), k) ↦
                let whole : w ≡ record {
                  occurred_since = a;
                  occurred_until = b;
                  completed_since = c;
                  completed_until = d;
                } =
                  ground arith in
                rw whole (
                  subst Given h (resolve_base-IsWindow raw.occurred_since raw.occurred_until now),
                  subst Given k (resolve_base-IsWindow raw.completed_since raw.completed_until now),
                )
          ]
    ]

start_bounds : (now : ℕ) → (start_of_today now ≤ now) × (now < start_of_today now + 86400)
unfolding start_of_today
start_bounds now = (omega arith, omega arith)

weekday_bound : (at : ℕ) → weekday at < 7
unfolding weekday
weekday_bound at = omega arith

-- Today and yesterday are within two days, the week's Monday within seven; no keyword is after now.
keyword_bounds :
    (k : WindowKeyword) (now at : ℕ)
    → resolve_keyword k now none ≡ some at
    → (at ≤ now) × (now < at + 7 * 86400)
unfolding resolve_keyword
keyword_bounds now_keyword now at e = ground arith
keyword_bounds today now at e = ground (arith, start_bounds now)
keyword_bounds yesterday now at e = ground (arith, start_bounds now)
keyword_bounds this_week now at e =
    ground (arith, start_bounds now, weekday_bound (start_of_today now))
keyword_bounds oldest now at e = ground arith
