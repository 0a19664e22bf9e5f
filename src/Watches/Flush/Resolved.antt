-- ===== src/Watches/Flush/Resolved.antt =====
-- `_resolve_action` of apps/core/watches/operations/digest_flush.py.
use openmagpie.Prelude.{
  ◌≡◌, refl, subst, ◌&&◌, Option, none, some, List, [], ◌∷◌, arith, ◌==◌, find, Bool-cases, inl,
  inr,
}
use openmagpie.Watches.Model.{Window, Action, Db, Executor, Registry}
use openmagpie.Watches.Chain.{get_action}
use openmagpie.Watches.Chain.Order.{In}
use openmagpie.Watches.Flush.{Resolution, unresolved, resolved, resolve_impl, resolve_digest}

module _ (registry : Registry) (window : Window) where
  -- What the resolution found: the action of the window, and its kind's executor.
  abbrev pub Finds : Db → Resolution → Type 0
  Finds db (unresolved error) = Unit
  Finds db (resolved action impl) =
      (registry.executor action.kind ≡ some impl)
      × (In action db.actions)
      × (action.id ≡ window.action_id)

  resolve_impl-Finds :
      (db : Db) (action : Action) (o : Option Executor)
      → registry.executor action.kind ≡ o
      → In action db.actions
      → action.id ≡ window.action_id
      → Finds db (resolve_impl action o)
  unfolding resolve_impl
  resolve_impl-Finds db action none e i own = tt
  resolve_impl-Finds db action (some impl) e i own = (e, i, own)

  find-In :
      (xs : List Action) (action : Action)
      → find (λ a. a.id == window.action_id && a.account_id == window.account_id) xs ≡ some action
      → In action xs × (action.id ≡ window.action_id)
  unfolding find
  find-In [] action e = cc
  find-In (x ∷ xs) action e =
      elim (Bool-cases (x.id == window.action_id && x.account_id == window.account_id)) [
        | inl hit ↦
            let same : x ≡ action = ground arith in
            (inl same, subst (λ (a : Action). a.id ≡ window.action_id) same (ground (arith, hit)))
        | inr miss ↦ let (i, own) = find-In xs action (rw miss at e) in (inr i, own)
      ]

  pub resolve_digest-Finds :
      (db : Db) (o : Option Action)
      → get_action window.account_id window.action_id db ≡ o
      → Finds db (resolve_digest registry o)
  unfolding resolve_digest get_action
  resolve_digest-Finds db none e = tt
  resolve_digest-Finds db (some action) e =
      let (i, own) = find-In db.actions action e in resolve_impl-Finds db action _ refl i own
