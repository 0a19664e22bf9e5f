-- ===== src/Auth/DeviceSessions/Handshake.antt =====
-- The handshake of apps/core/auth_api/device_sessions.py as a whole.
use Prim.Native.String.{String}
use openmagpie.Prelude.{
  ℕ, ◌+◌, ◌≤◌, ◌<◌, ◌≡◌, ◌≢◌, refl, ◌∙◌, ap, Bool, true, false, Option, none, some, List, [], ◌∷◌,
  ◌==◌, arith,
}
use openmagpie.Common.Cache.{Cache}
use openmagpie.Auth.DeviceSessions.{
  DeviceSessionState, SessionSettings, TokenPair, pending, polled, authorized, session_expired,
  same_text, is_completed, complete_with, cli_poll_view, normalize_user_code, device_secret_matches,
  put, key, create, poll, complete,
}

same_text_refl : (s : List ℕ) → same_text s s ≡ true
unfolding same_text
same_text_refl [] = refl
same_text_refl (c ∷ s) = ground (arith, same_text_refl s)

module _ {C : Type 0} (cache : Cache String DeviceSessionState C) (s : SessionSettings)
    (hash : ℕ → ℕ) (is_alnum : ℕ → Bool) (upper : List ℕ → List ℕ) where
  complete-authorized :
      (now : ℕ) (session_id : String) (submitted : List ℕ) (pair : TokenPair)
      (state : DeviceSessionState) (c : C)
      → cache.get now (key session_id) c ≡ some state
      → is_completed state ≡ false
      → same_text (normalize_user_code is_alnum upper state.user_code) [] ≡ false
      → normalize_user_code is_alnum upper submitted
        ≡ normalize_user_code is_alnum upper state.user_code
      → complete cache s hash is_alnum upper now session_id submitted pair c
        ≡ (authorized, put cache s hash is_alnum upper now session_id (complete_with pair state) c)
  unfolding complete
  complete-authorized now session_id submitted pair state c found open_yet some_code same =
      let blank : same_text (normalize_user_code is_alnum upper submitted) [] ≡ false =
        ap (λ code. same_text code []) same ∙ some_code in
      let typed : same_text (normalize_user_code is_alnum upper submitted)
            (normalize_user_code is_alnum upper state.user_code)
          ≡ true =
        ap (λ code. same_text code (normalize_user_code is_alnum upper state.user_code)) same
        ∙ same_text_refl (normalize_user_code is_alnum upper state.user_code) in
      rw (blank, found, open_yet, some_code, typed) refl

  poll-completed :
      (now : ℕ) (session_id : String) (secret : ℕ) (state : DeviceSessionState) (c : C)
      → (secret == 0) ≡ false
      → cache.get now (key session_id) c ≡ some state
      → is_completed state ≡ true
      → device_secret_matches hash secret state.device_secret_hash ≡ true
      → poll cache s hash is_alnum upper now session_id secret c
        ≡ (polled (cli_poll_view state), cache.delete (key session_id) c)
  unfolding poll
  poll-completed now session_id secret state c some_secret found done mine =
      rw (some_secret, found, mine, done) refl

  poll-expired :
      (now : ℕ) (session_id : String) (secret : ℕ) (c : C)
      → (secret == 0) ≡ false
      → cache.get now (key session_id) c ≡ none
      → (poll cache s hash is_alnum upper now session_id secret c).0 ≡ session_expired
  unfolding poll
  poll-expired now session_id secret c some_secret gone = rw (some_secret, gone) refl

  -- The state that a started session has, and that an authorized one has.
  abbrev started_state : ℕ → List ℕ → ℕ → Option ℕ → ℕ → DeviceSessionState
  started_state now user_code secret ip client = record {
    status = pending;
    created_at = now;
    user_code = user_code;
    device_secret_hash = hash secret;
    initiator_ip = ip;
    initiator = client;
    access_token = none;
    refresh_token = none;
    expires_in = none;
    token_type = none;
    user = none;
  }

  module _ (session_id : String) (user_code submitted : List ℕ)
      (secret client started typed asked later other : ℕ) (ip : Option ℕ) (pair : TokenPair)
      (c : C) where
    abbrev pending_cache : C
    pending_cache =
        (create cache s hash is_alnum upper started session_id user_code secret ip client c).1

    abbrev completed_cache : C
    completed_cache =
        (complete cache s hash is_alnum upper typed session_id submitted pair pending_cache).1

    -- A command line starts a session with a secret that is not blank, nor is its hash; before the
    -- pending bag expires, a user submits a code that normalizes to the normalized, not blank user
    -- code; before the completed bag expires, the command line polls with its secret. Then the
    -- user's request is authorized, the poll gives the state completed with the pair, and every
    -- later poll with a secret that is not blank finds the session expired.
    pub create-complete-poll :
        secret ≢ 0
        → hash secret ≢ 0
        → started ≤ typed
        → typed < started + s.device_session_pending_ttl_seconds
        → typed ≤ asked
        → asked < typed + s.device_session_completed_ttl_seconds
        → other ≢ 0
        → same_text (normalize_user_code is_alnum upper user_code) [] ≡ false
        → normalize_user_code is_alnum upper submitted
          ≡ normalize_user_code is_alnum upper user_code
        → ((complete cache s hash is_alnum upper typed session_id submitted pair pending_cache).0
            ≡ authorized)
          × ((poll cache s hash is_alnum upper asked session_id secret completed_cache).0
              ≡ polled (
                  cli_poll_view
                    (complete_with pair (started_state started user_code secret ip client))))
          × ((poll cache s hash is_alnum upper later session_id other
                (poll cache s hash is_alnum upper asked session_id secret completed_cache).1).0
              ≡ session_expired)
    unfolding create put is_completed complete_with device_secret_matches
    create-complete-poll some_secret some_hash after_start in_time after_typed in_window
          other_secret some_code same =
        (
          ap (λ r. r.0) authorization,
          ap (λ r. r.0) answer,
          poll-expired later session_id other _ (ground arith) (
              ap (λ r. cache.get later (key session_id) r.1) answer
              ∙ cache.get-delete later (key session_id) completed_cache),
        )
      where
        fresh : DeviceSessionState
        fresh = started_state started user_code secret ip client

        done : DeviceSessionState
        done = complete_with pair fresh

        found : cache.get typed (key session_id) pending_cache ≡ some fresh
        found =
            cache.get-set started typed s.device_session_pending_ttl_seconds (key session_id) fresh
              c after_start
            ∙ ground arith

        authorization :
            complete cache s hash is_alnum upper typed session_id submitted pair pending_cache
            ≡ (authorized, put cache s hash is_alnum upper typed session_id done pending_cache)
        authorization =
            complete-authorized typed session_id submitted pair fresh pending_cache found refl
              some_code same

        kept : cache.get asked (key session_id) completed_cache ≡ some done
        kept =
            ap (λ r. cache.get asked (key session_id) r.1) authorization
            ∙ cache.get-set typed asked s.device_session_completed_ttl_seconds (key session_id) done
                pending_cache after_typed
            ∙ ground arith

        answer :
            poll cache s hash is_alnum upper asked session_id secret completed_cache
            ≡ (polled (cli_poll_view done), cache.delete (key session_id) completed_cache)
        answer =
            poll-completed asked session_id secret done completed_cache (ground arith) kept refl
              (ground arith)
