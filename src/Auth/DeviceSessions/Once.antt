-- ===== src/Auth/DeviceSessions/Once.antt =====
-- What apps/core/auth_api/device_sessions.py does once per session.
use Prim.Native.String.{String}
use openmagpie.Prelude.{
  ℕ, ◌+◌, ◌≤◌, ◌≡◌, ◌≢◌, refl, sym, ◌∙◌, ap, subst, Bool, true, not, ◌||◌, none, some, List, [],
  ◌==◌, arith, ltb, Option-cases, Bool-cases, inl, inr,
}
use openmagpie.Common.Cache.{Cache}
use openmagpie.Auth.DeviceSessions.{
  DeviceSessionState, SessionSettings, TokenPair, PollView, completed, polled, authorized,
  same_text, is_completed, complete_with, cli_poll_view, normalize_user_code, device_secret_matches,
  put, key, poll, complete,
}

module _ {C : Type 0} (cache : Cache String DeviceSessionState C) (s : SessionSettings)
    (hash : ℕ → ℕ) (is_alnum : ℕ → Bool) (upper : List ℕ → List ℕ) where
  authorized-put :
      (now : ℕ) (session_id : String) (submitted : List ℕ) (pair : TokenPair) (c : C)
      → (complete cache s hash is_alnum upper now session_id submitted pair c).0 ≡ authorized
      → (state : DeviceSessionState) × ((complete cache s hash is_alnum upper now session_id
            submitted pair c).1
          ≡ put cache s hash is_alnum upper now session_id (complete_with pair state) c)
  unfolding complete
  authorized-put now session_id submitted pair c e =
      let code = normalize_user_code is_alnum upper submitted in
      elim (Bool-cases (same_text code [])) [
        | inl blank ↦ absurd (ground arith)
        | inr some_code ↦ elim (Option-cases (cache.get now (key session_id) c)) [
          | inl gone ↦ absurd (ground arith)
          | inr (state, found) ↦
              let stored = normalize_user_code is_alnum upper state.user_code in
              elim (Bool-cases (is_completed state)) [
                | inl done ↦ absurd (ground arith)
                | inr waiting ↦
                    elim (Bool-cases (same_text stored [] || not (same_text code stored))) [
                      | inl differs ↦ absurd (ground arith)
                      | inr agrees ↦ (state, rw (some_code, found, waiting, agrees) refl)
                    ]
              ]
        ]
      ]

  -- Where the key shows a completed session or none, no code is authorized.
  never :
      (now : ℕ) (session_id : String) (submitted : List ℕ) (pair : TokenPair) (c : C)
      → ((state : DeviceSessionState)
          → cache.get now (key session_id) c ≡ some state
          → is_completed state ≡ true)
      → ((complete cache s hash is_alnum upper now session_id submitted pair c).0 ≢ authorized)
        × ((complete cache s hash is_alnum upper now session_id submitted pair c).1 ≡ c)
  unfolding complete
  never now session_id submitted pair c done =
      elim (Bool-cases (same_text (normalize_user_code is_alnum upper submitted) [])) [
        | inl blank ↦ rw blank ((λ e. ground arith), refl)
        | inr some_code ↦ elim (Option-cases (cache.get now (key session_id) c)) [
          | inl gone ↦ rw (some_code, gone) ((λ e. ground arith), refl)
          | inr (state, found) ↦ rw (some_code, found, done state found) ((λ e. ground arith), refl)
        ]
      ]

  -- After a `complete` that was authorized, no `complete` of the session at that time or later,
  -- with any code and pair, is authorized or changes the cache.
  pub complete-complete :
      (now later : ℕ) (session_id : String) (submitted again : List ℕ) (pair other : TokenPair)
      (c : C)
      → now ≤ later
      → (complete cache s hash is_alnum upper now session_id submitted pair c).0 ≡ authorized
      → ((complete cache s hash is_alnum upper later session_id again other
            (complete cache s hash is_alnum upper now session_id submitted pair c).1).0
          ≢ authorized)
        × ((complete cache s hash is_alnum upper later session_id again other
              (complete cache s hash is_alnum upper now session_id submitted pair c).1).1
            ≡ (complete cache s hash is_alnum upper now session_id submitted pair c).1)
  unfolding put is_completed complete_with
  complete-complete now later session_id submitted again pair other c order first =
      let (state, written) = authorized-put now session_id submitted pair c first in
      never later session_id again other _ (λ found e.
        bag state found (subst (λ d. cache.get later (key session_id) d ≡ some found) written e))
    where
      bag :
          (state found : DeviceSessionState)
          → cache.get later
              (key session_id)
              (put cache s hash is_alnum upper now session_id (complete_with pair state) c)
            ≡ some found
          → is_completed found ≡ true
      bag state found e =
          let stored =
            sym (
              cache.get-set now later s.device_session_completed_ttl_seconds (key session_id)
                (complete_with pair state) c order)
            ∙ e in
          elim (Bool-cases (ltb later (now + s.device_session_completed_ttl_seconds))) [
            | inl early ↦
                let same : complete_with pair state ≡ found = ground arith in
                subst (λ x. is_completed x ≡ true) same refl
            | inr late ↦ absurd (ground arith)
          ]

  polled-delete :
      (now : ℕ) (session_id : String) (secret : ℕ) (view : PollView) (c : C)
      → (poll cache s hash is_alnum upper now session_id secret c).0 ≡ polled view
      → view.status ≡ completed
      → (poll cache s hash is_alnum upper now session_id secret c).1
        ≡ cache.delete (key session_id) c
  unfolding poll cli_poll_view is_completed
  polled-delete now session_id secret view c first done = elim (Bool-cases (secret == 0)) [
    | inl blank ↦ absurd (ground arith)
    | inr some_secret ↦ elim (Option-cases (cache.get now (key session_id) c)) [
      | inl gone ↦ absurd (ground arith)
      | inr (state, found) ↦
          elim (Bool-cases (device_secret_matches hash secret state.device_secret_hash)) [
            | inr other ↦ absurd (ground arith)
            | inl mine ↦
                let finished : state.status ≡ completed = ground arith in
                rw (some_secret, found, mine, finished) refl
          ]
    ]
  ]

  polled-none :
      (now : ℕ) (session_id : String) (secret : ℕ) (view : PollView) (c : C)
      → cache.get now (key session_id) c ≡ none
      → (poll cache s hash is_alnum upper now session_id secret c).0 ≢ polled view
  unfolding poll
  polled-none now session_id secret view c gone = elim (Bool-cases (secret == 0)) [
    | inl blank ↦ rw blank (λ e. ground arith)
    | inr some_secret ↦ rw (some_secret, gone) (λ e. ground arith)
  ]

  -- After a poll that gave a completed session, no poll of the session, at any time and with any
  -- secret, gives a session.
  pub poll-poll :
      (now later : ℕ) (session_id : String) (secret again : ℕ) (view other : PollView) (c : C)
      → (poll cache s hash is_alnum upper now session_id secret c).0 ≡ polled view
      → view.status ≡ completed
      → (poll cache s hash is_alnum upper later session_id again
          (poll cache s hash is_alnum upper now session_id secret c).1).0
        ≢ polled other
  poll-poll now later session_id secret again view other c first done =
      polled-none later session_id again other _ (
        ap (λ d. cache.get later (key session_id) d)
          (polled-delete now session_id secret view c first done)
        ∙ cache.get-delete later (key session_id) c)
