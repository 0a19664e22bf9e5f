-- ===== src/Common/Locks/Safety.antt =====
-- What a lease of apps/core/common/locks.py is worth while other processes take, renew and release.
use Prim.Native.String.{String}
use openmagpie.Prelude.{
  ℕ, ◌+◌, ◌≤◌, ◌<◌, ◌≡◌, ◌≢◌, refl, sym, ◌∙◌, Bool, true, false, ◌&&◌, ◌||◌, Option, none, some,
  ◌==◌, if◌then◌else◌, ltb, Bool-cases, Option-cases, inl, inr, arith, ==_iff, subst,
}
use openmagpie.Common.Cache.{Cache}
use openmagpie.Common.Locks.{acquire, is_token, owns, stamp}
use openmagpie.Common.Locks.World.{
  Phase, working, renewing, leaving, Holder, World, Step, Reach, enter, asked, unwound, settle,
  refresh, leave, assign, ends_at, is_late, passed, entered, renewal, renewed, exit, left, crashed,
  here, after,
}

==-false : (a b : ℕ) → (a == b) ≡ false → a ≢ b
==-false a b h = ground arith

-- The process that has just come in.
abbrev entrant : ℕ → String → ℕ → ℕ → Bool → Holder
entrant now name timeout token acquired = record {
  lease = record { name = name; token = token; timeout = timeout; acquired = acquired };
  took = acquired;
  stamped_at = now;
  phase = working;
}

module _ {C : Type 0} (cache : Cache String ℕ C) where
  -- A process that took its lock: the key shows its token up to the end of the window that its last
  -- write opened, and no longer.
  abbrev Holds : ℕ → C → Holder → Type 0
  Holds now c h =
      h.took ≡ true
      → (t : ℕ) → now ≤ t
      → (t < ends_at h → cache.get t h.lease.name c ≡ some h.lease.token)
        × (cache.get t h.lease.name c ≡ some h.lease.token → t < ends_at h)

  -- The first call of a renewal or a release came in the window of a process that took its lock.
  abbrev InTime : Holder → Phase → Type 0
  InTime h working = Unit
  InTime h (renewing checked_at) = (h.took ≡ true) × (checked_at < ends_at h)
  InTime h (leaving checked_at) = (h.took ≡ true) × (checked_at < ends_at h)

  abbrev pub Fits : ℕ → C → ℕ → Option Holder → Type 0
  Fits now c token none = Unit
  Fits now c token (some h) =
      (h.lease.token ≡ token)
      × Holds now c h
      × (h.lease.acquired ≡ true → h.took ≡ true)
      × InTime h h.phase

  abbrev pub IsFenced : World C → Type 0
  IsFenced w = (token : ℕ) → Fits w.now w.cache token (w.holders token)

  -- Of the tokens, only `token` can be in the key now.
  abbrev Owned : ℕ → ℕ → String → C → Type 0
  Owned now token name c = (owner : ℕ) → cache.get now name c ≡ some owner → owner ≡ token

  module _ (now token : ℕ) (name : String) (c : C) (h : Holder) (owned : Owned now token name c)
      (other : h.lease.token ≢ token) (held : Holds now c h) where
    -- A process whose window is early has another key.
    apart : h.took ≡ true → now < ends_at h → name ≢ h.lease.name
    apart took early same = other (
        owned h.lease.token (
          subst (λ n. cache.get now n c ≡ some h.lease.token) (sym same)
            ((held took now (omega arith)).0 early)))

    Holds-set : (timeout : ℕ) → Holds now (cache.set now name token timeout c) h
    Holds-set timeout took t late = (
      λ early.
          cache.get-set_other now t timeout name h.lease.name token c (apart took (omega arith))
          ∙ (held took t late).0 early,
      λ shown.
          let differs : name ≢ h.lease.name = λ same. other (
            sym (
              ours shown
                (subst (λ n. Shows n) same (cache.get-set now t timeout name token c late)))) in
          (held took t late).1
            (sym (cache.get-set_other now t timeout name h.lease.name token c differs) ∙ shown),
    )
      where
        Shows : String → Type 0
        Shows n =
            cache.get t n (cache.set now name token timeout c)
            ≡ (if ltb t (now + timeout) then some token else none)

        ours :
            {o : Option ℕ}
            → o ≡ some h.lease.token
            → o ≡ (if ltb t (now + timeout) then some token else none)
            → token ≡ h.lease.token
        ours shown said = ground arith

    Holds-delete : Holds now (cache.delete name c) h
    Holds-delete took t late = (
      λ early.
          cache.get-delete_other t name h.lease.name c (apart took (omega arith))
          ∙ (held took t late).0 early,
      λ shown.
          let differs : name ≢ h.lease.name = λ same. gone (
            sym shown
            ∙ subst (λ n. cache.get t n (cache.delete name c) ≡ none) same
                (cache.get-delete t name c)) in
          (held took t late).1 (sym (cache.get-delete_other t name h.lease.name c differs) ∙ shown),
    )
      where
        gone : some h.lease.token ≢ none
        gone e = ground arith

  -- A process writes the cache in a way that keeps the other windows, and its own entry.
  fence-write :
      (w : World C) (token : ℕ) (c : C) (entry : Option Holder) (late : Bool)
      → IsFenced w
      → ((h : Holder) → h.lease.token ≢ token → Holds w.now w.cache h → Holds w.now c h)
      → Fits w.now c token entry
      → IsFenced (record w { cache = c; holders = assign token entry w.holders; late = late })
  unfolding assign
  fence-write w token c entry late fenced others own t = elim (Bool-cases (t == token)) [
    | inl same ↦ rw (same, (==_iff t token).0 same) own
    | inr differs ↦ rw differs (there (==-false t token differs) (w.holders t) (fenced t))
  ]
    where
      there : t ≢ token → (o : Option Holder) → Fits w.now w.cache t o → Fits w.now c t o
      there differs none fits = tt
      there differs (some h) fits =
          (fits.0, others h (λ same. differs (sym fits.0 ∙ same)) fits.1, fits.2, fits.3)

  -- The token that a write puts in the key is there until its window ends.
  Holds-stamp :
      (now : ℕ) (c : C) (h : Holder) → h.stamped_at ≡ now → Holds now (stamp cache now h.lease c) h
  Holds-stamp now c h stamped took t late =
      rw (cache.get-set now t h.lease.timeout h.lease.name h.lease.token c late)
        ((λ early. ground arith), (λ shown. ground arith))

  enter-IsFenced :
      (w : World C) (name : String) (timeout token : ℕ)
      → IsFenced w
      → IsFenced (enter cache name timeout token w)
  unfolding enter acquire
  enter-IsFenced w name timeout token fenced = elim (Option-cases (cache.get w.now name w.cache)) [
    | inl free ↦ rw (cache.add_absent w.now timeout name token w.cache free) (
        fence-write w token (cache.set w.now name token timeout w.cache)
          (some (entrant w.now name timeout token true)) w.late fenced
          (λ h other held.
            Holds-set w.now token name w.cache h (λ owner shown. ground (arith, free)) other held
              timeout)
          (
            refl,
            Holds-stamp w.now w.cache (entrant w.now name timeout token true) refl,
            (λ e. refl),
            tt,
          ))
    | inr (owner, shown) ↦ rw (cache.add_present w.now timeout name token owner w.cache shown) (
        fence-write w token w.cache (some (entrant w.now name timeout token false)) w.late fenced
          (λ h other held. held) (refl, (λ took t late. ground arith), (λ e. e), tt))
  ]

  -- A process whose token the key shows.
  is_token_iff : (token : ℕ) (o : Option ℕ) → is_token token o ≡ true → o ≡ some token
  unfolding is_token
  is_token_iff token none shown = ground arith
  is_token_iff token (some owner) shown = ground arith

  -- The first call of a renewal or a release writes nothing in the cache.
  settle-IsFenced :
      (w : World C) (entry : Option Holder) (h : Holder)
      → Fits w.now w.cache h.lease.token entry
      → IsFenced w
      → IsFenced (settle cache entry h w)
  unfolding settle
  settle-IsFenced w entry h fits fenced =
      fence-write w h.lease.token w.cache entry w.late fenced (λ g other held. held) fits

  asked-Fits :
      (now token : ℕ) (c : C) (h : Holder)
      → Fits now c token (some h)
      → Fits now c token (some (asked cache now c h))
  unfolding asked
  asked-Fits now token c h fits = elim (Bool-cases h.lease.acquired) [
    | inr missed ↦ rw missed (fits.0, fits.1, (λ e. ground arith), fits.3)
    | inl acquired ↦ elim (Bool-cases (owns cache now h.lease.name h.lease.token c)) [
      | inl ours ↦
          let took = fits.2 acquired in
          let shown = is_token_iff h.lease.token (cache.get now h.lease.name c) ours in
          rw (acquired, ours)
            (fits.0, fits.1, (λ e. took), (took, (fits.1 took now (omega arith)).1 shown))
      | inr lost ↦ rw (acquired, lost) (fits.0, fits.1, (λ e. ground arith), fits.3)
    ]
  ]

  unwound-Fits :
      (now token : ℕ) (c : C) (h : Holder)
      → Fits now c token (some h)
      → Fits now c token (unwound cache now c h)
  unfolding unwound
  unwound-Fits now token c h fits =
      elim (Bool-cases (h.took && owns cache now h.lease.name h.lease.token c)) [
        | inl ours ↦
            let took : h.took ≡ true = ground arith in
            let mine : owns cache now h.lease.name h.lease.token c ≡ true = ground arith in
            let shown = is_token_iff h.lease.token (cache.get now h.lease.name c) mine in
            rw ours (fits.0, fits.1, fits.2, (took, (fits.1 took now (omega arith)).1 shown))
        | inr lost ↦ rw lost tt
      ]

  -- The second call comes in the window of the first, so no other token is in the key.
  in_time-Owned :
      (now checked_at token : ℕ) (c : C) (h : Holder)
      → (h.took ≡ true) × (checked_at < ends_at h)
      → is_late checked_at now h ≡ false
      → Holds now c h
      → Owned now h.lease.token h.lease.name c
  unfolding is_late
  in_time-Owned now checked_at token c h (took, early) timely held owner shown =
      let inside : now < ends_at h = ground arith in
      let own = (held took now (omega arith)).0 inside in one (sym shown ∙ own)
    where
      one : some owner ≡ some h.lease.token → owner ≡ h.lease.token
      one e = ground arith

  refresh-IsFenced :
      (w : World C) (checked_at : ℕ) (h : Holder)
      → h.phase ≡ renewing checked_at
      → is_late checked_at w.now h ≡ false
      → Fits w.now w.cache h.lease.token (some h)
      → IsFenced w
      → IsFenced (refresh cache checked_at h w)
  unfolding refresh
  refresh-IsFenced w checked_at h phase timely fits fenced =
      let in_time : (h.took ≡ true) × (checked_at < ends_at h) = subst (InTime h) phase fits.3 in
      fence-write w h.lease.token (stamp cache w.now h.lease w.cache)
        (some (record h { stamped_at = w.now; phase = working }))
        (w.late || is_late checked_at w.now h) fenced
        (λ g other held.
          Holds-set w.now h.lease.token h.lease.name w.cache g
            (in_time-Owned w.now checked_at h.lease.token w.cache h in_time timely fits.1) other
            held h.lease.timeout)
        (
          refl,
          Holds-stamp w.now w.cache (record h { stamped_at = w.now; phase = working }) refl,
          fits.2,
          tt,
        )

  leave-IsFenced :
      (w : World C) (checked_at : ℕ) (h : Holder)
      → h.phase ≡ leaving checked_at
      → is_late checked_at w.now h ≡ false
      → Fits w.now w.cache h.lease.token (some h)
      → IsFenced w
      → IsFenced (leave cache checked_at h w)
  unfolding leave
  leave-IsFenced w checked_at h phase timely fits fenced =
      let in_time : (h.took ≡ true) × (checked_at < ends_at h) = subst (InTime h) phase fits.3 in
      fence-write w h.lease.token (cache.delete h.lease.name w.cache) none
        (w.late || is_late checked_at w.now h) fenced
        (λ g other held.
          Holds-delete w.now h.lease.token h.lease.name w.cache g
            (in_time-Owned w.now checked_at h.lease.token w.cache h in_time timely fits.1) other
            held)
        tt

  passed-IsFenced :
      (w : World C) (seconds : ℕ) → IsFenced w → IsFenced (record w { now = w.now + seconds })
  passed-IsFenced w seconds fenced token = later (w.holders token) (fenced token)
    where
      later :
          (o : Option Holder) → Fits w.now w.cache token o → Fits (w.now + seconds) w.cache token o
      later none fits = tt
      later (some h) fits = (fits.0, (λ took t late. fits.1 took t (omega arith)), fits.2, fits.3)

  -- A holder that is there, under its own token.
  found-Fits :
      (w : World C) (token : ℕ) (h : Holder)
      → w.holders token ≡ some h
      → IsFenced w
      → Fits w.now w.cache h.lease.token (some h)
  found-Fits w token h found fenced =
      let fits : Fits w.now w.cache token (some h) =
        subst (Fits w.now w.cache token) found (fenced token) in
      (refl, fits.1, fits.2, fits.3)

  Step-timely : (w v : World C) → Step cache w v → v.late ≡ false → w.late ≡ false
  unfolding enter acquire settle refresh leave
  Step-timely _ _ (passed w seconds) timely = timely
  Step-timely _ _ (entered w name timeout token new) timely = timely
  Step-timely _ _ (renewal w token h found phase) timely = timely
  Step-timely _ _ (renewed w token checked_at h found phase) timely = ground arith
  Step-timely _ _ (exit w token h found phase) timely = timely
  Step-timely _ _ (left w token checked_at h found phase) timely = ground arith
  Step-timely _ _ (crashed w token h found) timely = timely

  Step-IsFenced : (w v : World C) → Step cache w v → v.late ≡ false → IsFenced w → IsFenced v
  Step-IsFenced _ _ (passed w seconds) timely fenced = passed-IsFenced w seconds fenced
  Step-IsFenced _ _ (entered w name timeout token new) timely fenced =
      enter-IsFenced w name timeout token fenced
  Step-IsFenced _ _ (renewal w token h found phase) timely fenced =
      settle-IsFenced w (some (asked cache w.now w.cache h)) h
        (asked-Fits w.now h.lease.token w.cache h (found-Fits w token h found fenced)) fenced
  Step-IsFenced _ _ (renewed w token checked_at h found phase) timely fenced =
      refresh-IsFenced w checked_at h phase (unfold refresh in ground arith)
        (found-Fits w token h found fenced) fenced
  Step-IsFenced _ _ (exit w token h found phase) timely fenced =
      settle-IsFenced w (unwound cache w.now w.cache h) h
        (unwound-Fits w.now h.lease.token w.cache h (found-Fits w token h found fenced)) fenced
  Step-IsFenced _ _ (left w token checked_at h found phase) timely fenced =
      leave-IsFenced w checked_at h phase (unfold leave in ground arith)
        (found-Fits w token h found fenced) fenced
  Step-IsFenced _ _ (crashed w token h found) timely fenced =
      fence-write w token w.cache none w.late fenced (λ g other held. held) tt

  pub Reach-IsFenced : (w v : World C) → IsFenced w → Reach cache w v → v.late ≡ false → IsFenced v
  Reach-IsFenced w _ fenced here timely = fenced
  Reach-IsFenced w _ fenced (after u v path step) timely =
      let before = Step-timely u v step timely in
      Step-IsFenced u v step timely (Reach-IsFenced w u fenced path before)
