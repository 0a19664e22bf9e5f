-- ===== src/Watches/Chain/Edits/Ranked.antt =====
-- The rows and the digest windows under the edits of a chain by the service of
-- apps/core/watches/services/watches/_actions.py.
use openmagpie.Prelude.{
  ℕ, zero, suc, ◌<◌, ◌≡◌, refl, ap, ◌∙◌, Bool, true, false, ◌&&◌, ◌||◌, Option, some, List, [], ◌∷◌,
  arith, ◌==◌, remove, select, exists, order_by, insert_by, All, Unique, Unique-select,
  Unique-remove, Bool-cases, inl, inr,
}
use openmagpie.Watches.Model.{same_action, Action, Config, Window, Run, Db}
use openmagpie.Watches.Runs.Drain.{has_window}
use openmagpie.Watches.Runs.Complete.{id_in}
use openmagpie.Watches.Windows.{clear_digest_windows}
use openmagpie.Watches.Chain.{is_on_path, ranks_before, list_for_path}
use openmagpie.Watches.Chain.Edits.{
  edited, write_ranks, renumber, insert_at, is_digest, insert_action, add_action, save_config,
  merge_action, set_config, delete_action, remove_action,
}

abbrev pub set_rank : ℕ → Action → Action
set_rank rank a = record a { rank = rank }

exists-insert_by :
    (q : Action → Bool) (before : Action → Action → Bool) (x : Action) (ys : List Action)
    → exists q (insert_by before x ys) ≡ (q x || exists q ys)
unfolding exists insert_by
exists-insert_by q before x [] = refl
exists-insert_by q before x (y ∷ ys) = ground (arith, exists-insert_by q before x ys)

pub exists-order_by :
    (q : Action → Bool) (before : Action → Action → Bool) (xs : List Action)
    → exists q (order_by before xs) ≡ exists q xs
unfolding exists order_by
exists-order_by q before [] = refl
exists-order_by q before (x ∷ xs) =
    rw exists-insert_by (ap (λ b. q x || b) (exists-order_by q before xs))

Unique-insert_by :
    (before : Action → Action → Bool) (x : Action) (ys : List Action)
    → exists (same_action x) ys ≡ false
    → Unique same_action ys
    → Unique same_action (insert_by before x ys)
unfolding exists insert_by
Unique-insert_by before x [] new u = (refl, tt)
Unique-insert_by before x (y ∷ ys) new u = elim (Bool-cases (before x y)) [
  | inl b ↦ rw b (new, u)
  | inr b ↦
      let apart : (same_action y x || exists (same_action y) ys) ≡ false = ground (arith, u.0) in
      rw b (
        exists-insert_by (same_action y) before x ys ∙ apart,
        Unique-insert_by before x ys (ground arith) u.1,
      )
]

Unique-order_by :
    (before : Action → Action → Bool) (xs : List Action)
    → Unique same_action xs
    → Unique same_action (order_by before xs)
unfolding order_by
Unique-order_by before [] u = tt
Unique-order_by before (x ∷ xs) u =
    Unique-insert_by before x _ (exists-order_by (same_action x) before xs ∙ u.0)
      (Unique-order_by before xs u.1)

pub list_for_path-Unique :
    (account_id path_id : ℕ) (db : Db)
    → Unique same_action db.actions
    → Unique same_action (list_for_path account_id path_id db)
unfolding list_for_path
list_for_path-Unique a p db u =
    Unique-order_by (ranks_before a) _ (Unique-select same_action (is_on_path a p) db.actions u)

-- The window rows of an action are gone.
cleared-has_window :
    (account_id action_id : ℕ) (ws : List Window) (r : Run)
    → r.account_id ≡ account_id
    → r.action_id ≡ action_id
    → has_window
        (remove
          (λ (w : Window). w.account_id == account_id && id_in (action_id ∷ []) w.action_id)
          ws)
        r
      ≡ false
unfolding has_window exists remove id_in
cleared-has_window a c [] r e f = refl
cleared-has_window a c (w ∷ ws) r e f = ground (arith, cleared-has_window a c ws r e f)

write_ranks-windows :
    (start : ℕ) (rows : List Action) (db : Db) → (write_ranks start rows db).windows ≡ db.windows
unfolding write_ranks
write_ranks-windows start [] db = refl
write_ranks-windows start (row ∷ rows) db = write_ranks-windows (suc start) rows _

-- A `set_config` of an own action to a config that is not digest leaves no digest window that
-- holds back the action's runs.
pub set_config_releases :
    (account_id : ℕ) (action : Action) (kind : ℕ) (config : Config) (db : Db) (r : Run)
    → action.account_id ≡ account_id
    → is_digest config ≡ false
    → r.account_id ≡ account_id
    → r.action_id ≡ action.id
    → has_window (set_config account_id action kind (some config) false db).1.windows r ≡ false
unfolding set_config merge_action save_config clear_digest_windows
set_config_releases a action kind config db r own instant e f =
    ground (arith, cleared-has_window a action.id db.windows r e f)

pub renumber-windows :
    (ordered : List Action) (db : Db) → (renumber ordered db).windows ≡ db.windows
unfolding renumber
renumber-windows ordered db = write_ranks-windows 0 ordered _ ∙ write_ranks-windows _ ordered db

pub remove_action_lem :
    (account_id : ℕ) (action : Action) (db : Db)
    → action.account_id ≡ account_id
    → let deleted = delete_action account_id action db in
      remove_action account_id action true db
      ≡ (edited action, renumber (list_for_path account_id action.path_id deleted) deleted)
unfolding remove_action
remove_action_lem a action db own = ground (arith, own)

pub delete_action-Unique :
    (account_id : ℕ) (action : Action) (db : Db)
    → Unique same_action db.actions
    → Unique same_action (delete_action account_id action db).actions
unfolding delete_action clear_digest_windows
delete_action-Unique a action db u = Unique-remove same_action _ db.actions u

pub delete_action-has_window :
    (account_id : ℕ) (action : Action) (db : Db) (r : Run)
    → r.account_id ≡ account_id
    → r.action_id ≡ action.id
    → has_window (delete_action account_id action db).windows r ≡ false
unfolding delete_action clear_digest_windows
delete_action-has_window a action db r e f = cleared-has_window a action.id db.windows r e f

-- The ids of the actions are below the next one.
abbrev pub AllBelow : ℕ → List Action → Type 0
AllBelow next_id = All (λ a. a.id < next_id)

below-new :
    (x : Action) (actions : List Action)
    → AllBelow x.id actions
    → exists (same_action x) actions ≡ false
unfolding exists
below-new x [] h = refl
below-new x (a ∷ actions) h = ground (arith, h.0, below-new x actions h.1)

exists-select-false :
    (q p : Action → Bool) (xs : List Action) → exists q xs ≡ false → exists q (select p xs) ≡ false
unfolding exists select
exists-select-false q p [] h = refl
exists-select-false q p (x ∷ xs) h = ground (arith, exists-select-false q p xs)

exists-insert_at :
    (q : Action → Bool) (at : ℕ) (x : Action) (chain : List Action)
    → exists q (insert_at at x chain) ≡ (q x || exists q chain)
unfolding exists insert_at
exists-insert_at q zero x chain = refl
exists-insert_at q (suc at) x [] = refl
exists-insert_at q (suc at) x (y ∷ chain) = ground (arith, exists-insert_at q at x chain)

pub Unique-insert_at :
    (at : ℕ) (x : Action) (chain : List Action)
    → exists (same_action x) chain ≡ false
    → Unique same_action chain
    → Unique same_action (insert_at at x chain)
unfolding insert_at exists
Unique-insert_at zero x chain new u = (new, u)
Unique-insert_at (suc at) x [] new u = (refl, tt)
Unique-insert_at (suc at) x (y ∷ chain) new u =
    let apart : (same_action y x || exists (same_action y) chain) ≡ false = ground (arith, u.0) in
    (
      exists-insert_at (same_action y) at x chain ∙ apart,
      Unique-insert_at at x chain (ground arith) u.1,
    )

pub list_for_path-new :
    (account_id path_id : ℕ) (x : Action) (db : Db)
    → AllBelow x.id db.actions
    → exists (same_action x) (list_for_path account_id path_id db) ≡ false
unfolding list_for_path
list_for_path-new a p x db h =
    exists-order_by (same_action x) (ranks_before a) _
    ∙ exists-select-false (same_action x) (is_on_path a p) db.actions (below-new x db.actions h)

pub add_action_lem :
    (account_id path_id kind : ℕ) (config : Config) (rank : Option ℕ) (db : Db)
    → add_action account_id path_id kind (some config) rank false true db
      ≡ insert_action account_id path_id kind config rank db
unfolding add_action
add_action_lem a p k config rank db = refl
