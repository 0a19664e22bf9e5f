-- ===== src/Watches/Windows/Laws.antt =====
-- The protocol of the digest windows of apps/core/watches/services/digest.py: their anchor, what they hide
-- from the drain, and when they close.
use openmagpie.Prelude.{
  ◌⊎◌, ℕ, ◌+◌, ◌≡◌, refl, Bool, true, false, ◌&&◌, Option, none, some, List, [], ◌∷◌, ◌++◌, arith,
  exists, update, find, Bool-cases, Option-cases, inl, inr,
}
use openmagpie.Watches.Model.{Settings, Run, Window, Db}
use openmagpie.Watches.Runs.Drain.{has_window, is_due, at_most}
use openmagpie.Watches.Runs.Complete.{is_pending_of}
use openmagpie.Watches.Windows.{is_window, set_close, open_found, open_window, close_if_drained}

module _ (account_id action_id : ℕ) where
  abbrev is_own : Window → Bool
  is_own = is_window account_id action_id

  -- The action has a window that closes at `t`.
  abbrev pub IsOpen : ℕ → Db → Type 0
  IsOpen t db = (w : Window) × (find is_own db.windows ≡ some w) × (w.close_at ≡ some t)

  find-append_new :
      (ws : List Window) (w : Window)
      → find is_own ws ≡ none
      → is_own w ≡ true
      → find is_own (ws ++ w ∷ []) ≡ some w
  unfolding find
  find-append_new [] w h o = rw o
  find-append_new (x ∷ ws) w h o = ground (arith, find-append_new ws w)

  find-set_close :
      (close : Option ℕ) (ws : List Window) (w : Window)
      → find is_own ws ≡ some w
      → find is_own (update is_own (set_close close) ws) ≡ some (set_close close w)
  unfolding find update
  find-set_close close [] w h = cc
  find-set_close close (x ∷ ws) w h = ground (arith, find-set_close close ws w)

  open_found-IsOpen :
      (close : ℕ) (o : Option Window) (db : Db)
      → find is_own db.windows ≡ o
      → let (t, db') = open_found account_id action_id close o db in IsOpen t db'
  unfolding open_found
  open_found-IsOpen close none db e = (_, find-append_new db.windows _ e (ground arith), refl)
  open_found-IsOpen close (some w) db e = elim (Option-cases w.close_at) [
    | inl shut ↦
        rw (shut, open_found)
          (set_close (some close) w, find-set_close (some close) db.windows w e, refl)
    | inr (t, o) ↦ rw (o, open_found) (w, e, o)
  ]

  -- The call returns the close time of the window that it leaves open.
  open_window-IsOpen :
      (interval now : ℕ) (db : Db)
      → let (t, db') = open_window account_id action_id interval now db in IsOpen t db'
  unfolding open_window
  open_window-IsOpen interval now db = open_found-IsOpen (now + interval) _ db refl

  open_window-open :
      (interval now t : ℕ) (db : Db)
      → IsOpen t db
      → open_window account_id action_id interval now db ≡ (t, db)
  unfolding open_window
  open_window-open interval now t db (w, e, c) = rw (e, open_window) (rw (c, open_found))

  -- Opening a window right after it was opened, at any time and with any interval, returns the
  -- same close time and changes nothing.
  open_window_twice :
      (interval now interval' now' : ℕ) (db : Db)
      → let (t, db') = open_window account_id action_id interval now db in
        open_window account_id action_id interval' now' db' ≡ (t, db')
  open_window_twice interval now interval' now' db =
      open_window-open interval' now' _ _ (open_window-IsOpen interval now db)

  find-exists : (ws : List Window) (w : Window) → find is_own ws ≡ some w → exists is_own ws ≡ true
  unfolding find exists
  find-exists [] w h = cc
  find-exists (x ∷ ws) w h = ground (arith, find-exists ws w)

  exists-has_window :
      (ws : List Window) (r : Run)
      → r.account_id ≡ account_id
      → r.action_id ≡ action_id
      → exists is_own ws ≡ true
      → has_window ws r ≡ true
  unfolding exists has_window
  exists-has_window [] r a c h = cc
  exists-has_window (w ∷ ws) r a c h = ground (arith, exists-has_window ws r a c)

  not_due :
      (settings : Settings) (ts : ℕ) (ws : List Window) (r : Run)
      → has_window ws r ≡ true
      → is_due settings ts ws r ≡ false
  unfolding is_due
  not_due settings ts ws r h = rw h (ground arith)

  -- Once the digest window of an action is opened, no run of that action is due for the drain at
  -- any time.
  pub open_window_hides :
      (settings : Settings) (interval now ts : ℕ) (db : Db) (r : Run)
      → r.account_id ≡ account_id
      → r.action_id ≡ action_id
      → is_due settings ts (open_window account_id action_id interval now db).1.windows r ≡ false
  open_window_hides settings interval now ts db r a c =
      let (w, found, _) = open_window-IsOpen interval now db in
      not_due settings ts _ r (exists-has_window _ r a c (find-exists _ w found))

  abbrev pub is_due_own : ℕ → Window → Bool
  is_due_own ts w = is_own w && at_most w.close_at ts

  closed-not_due :
      (ts : ℕ) (ws : List Window)
      → exists (is_due_own ts) (update is_own (set_close none) ws) ≡ false
  unfolding exists update
  closed-not_due ts [] = refl
  closed-not_due ts (w ∷ ws) = ground (arith, closed-not_due ts ws)

  absent-not_due :
      (ts : ℕ) (ws : List Window) → exists is_own ws ≡ false → exists (is_due_own ts) ws ≡ false
  unfolding exists
  absent-not_due ts [] h = refl
  absent-not_due ts (w ∷ ws) h = ground (arith, absent-not_due ts ws)

  -- The close reports true only with nothing left to flush: no row, or no PENDING run. Then no window
  -- of the action is due at any time. It reports false only while a PENDING run remains, and changes
  -- nothing. It never touches a run.
  close_if_drained_lem :
      (ts : ℕ) (db : Db)
      → let (closed, db') = close_if_drained account_id action_id db in
        (closed ≡ true
          → (exists (is_due_own ts) db'.windows ≡ false)
            × ((exists is_own db.windows ≡ false)
                ⊎ (exists (is_pending_of account_id action_id) db.runs ≡ false)))
        × (closed ≡ false
            → (db' ≡ db) × (exists (is_pending_of account_id action_id) db.runs ≡ true))
        × (db'.runs ≡ db.runs)
  unfolding close_if_drained
  close_if_drained_lem ts db = elim (Bool-cases (exists is_own db.windows)) [
    | inr gone ↦ rw gone ((λ _. (absent-not_due ts db.windows gone, inl refl)), (λ e. cc), refl)
    | inl there ↦
        rw there (elim (Bool-cases (exists (is_pending_of account_id action_id) db.runs)) [
          | inl left ↦ rw left ((λ e. cc), (λ _. (refl, refl)), refl)
          | inr drained ↦
              rw drained ((λ _. (closed-not_due ts db.windows, inr refl)), (λ e. cc), refl)
        ])
  ]

-- A close that reports true leaves no window of the action that is due at any time, and there was
-- nothing left to flush: the action had no window row, or no PENDING run.
pub close_if_drained-true :
    (account_id action_id ts : ℕ) (db db' : Db)
    → close_if_drained account_id action_id db ≡ (true, db')
    → (exists (is_due_own account_id action_id ts) db'.windows ≡ false)
      × ((exists (is_window account_id action_id) db.windows ≡ false)
          ⊎ (exists (is_pending_of account_id action_id) db.runs ≡ false))
close_if_drained-true a c ts db db' e =
    let closed : (close_if_drained a c db).0 ≡ true = cc in
    let same : (close_if_drained a c db).1 ≡ db' = cc in
    rw same at ((close_if_drained_lem a c ts db).0 closed)

-- A close that reports false changes nothing, and a PENDING run of the action remains.
close_if_drained-false :
    (account_id action_id : ℕ) (db db' : Db)
    → close_if_drained account_id action_id db ≡ (false, db')
    → (db' ≡ db) × (exists (is_pending_of account_id action_id) db.runs ≡ true)
close_if_drained-false a c db db' e =
    let closed : (close_if_drained a c db).0 ≡ false = cc in
    let same : (close_if_drained a c db).1 ≡ db' = cc in
    rw same at ((close_if_drained_lem a c 0 db).1 closed)
