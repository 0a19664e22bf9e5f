-- ===== src/Auth/DeviceSessions.antt =====
-- apps/core/auth_api/device_session_store.py and the views of apps/core/auth_api/device_sessions.py:
-- the handshake that signs a command line in.
pub mod Handshake
pub mod Once
use Prim.Native.String.{String, ◌++◌}
use openmagpie.Prelude.{
  ℕ, Bool, true, false, not, ◌&&◌, ◌||◌, Option, none, some, List, [], ◌∷◌, ◌==◌, if◌then◌else◌,
  select,
}
use openmagpie.Common.Cache.{Cache}

-- A text that the code takes apart is the list of its code points.
unfoldable pub same_text : List ℕ → List ℕ → Bool
same_text [] [] = true
same_text [] (d ∷ t) = false
same_text (c ∷ s) [] = false
same_text (c ∷ s) (d ∷ t) = c == d && same_text s t

pub data DeviceSessionStatus : Type 0 where
  pending completed expired : DeviceSessionStatus

-- `TokenPairSerializer.build(...)`.
pub record TokenPair : Type 0 where
  pub access_token : ℕ
  pub refresh_token : ℕ
  pub expires_in : ℕ
  pub token_type : ℕ
  pub user : ℕ

pub record DeviceSessionState : Type 0 where
  pub status : DeviceSessionStatus
  pub created_at : ℕ
  pub user_code : List ℕ
  pub device_secret_hash : ℕ
  pub initiator_ip : Option ℕ
  pub initiator : ℕ
  pub access_token : Option ℕ
  pub refresh_token : Option ℕ
  pub expires_in : Option ℕ
  pub token_type : Option ℕ
  pub user : Option ℕ

unfoldable pub is_completed : DeviceSessionState → Bool
is_completed state = elim state.status [ completed ↦ true | _ ↦ false ]

unfoldable pub complete_with : TokenPair → DeviceSessionState → DeviceSessionState
complete_with pair state = record state {
  status = completed;
  access_token = some pair.access_token;
  refresh_token = some pair.refresh_token;
  expires_in = some pair.expires_in;
  token_type = some pair.token_type;
  user = some pair.user;
}

-- `cli_poll_view`.
pub record PollView : Type 0 where
  pub status : DeviceSessionStatus
  pub created_at : ℕ
  pub access_token : Option ℕ
  pub refresh_token : Option ℕ
  pub expires_in : Option ℕ
  pub token_type : Option ℕ
  pub user : Option ℕ

unfoldable pub cli_poll_view : DeviceSessionState → PollView
cli_poll_view state = record {
  status = state.status;
  created_at = state.created_at;
  access_token = state.access_token;
  refresh_token = state.refresh_token;
  expires_in = state.expires_in;
  token_type = state.token_type;
  user = state.user;
}

-- `info_view`.
pub record InfoView : Type 0 where
  pub status : DeviceSessionStatus
  pub created_at : ℕ
  pub initiator_ip : Option ℕ
  pub initiator : ℕ

unfoldable pub info_view : DeviceSessionState → InfoView
info_view state = record {
  status = state.status;
  created_at = state.created_at;
  initiator_ip = state.initiator_ip;
  initiator = state.initiator;
}

-- The responses of the views.
pub data Response : Type 0 where
  session_created :
      (session_id : String) → (user_code : List ℕ) → (device_secret expires_in : ℕ) → Response
  polled : PollView → Response
  info : InfoView → Response
  denied : Response
  authorized : Response
  missing_device_secret : Response
  invalid_device_secret : Response
  session_expired : Response
  missing_user_code : Response
  session_already_completed : Response
  code_mismatch : Response

pub record SessionSettings : Type 0 where
  pub device_session_pending_ttl_seconds : ℕ
  pub device_session_completed_ttl_seconds : ℕ

-- `_normalize_user_code`: `is_alnum` and `upper` are `str.isalnum` of a character and `str.upper`.
module _ (is_alnum : ℕ → Bool) (upper : List ℕ → List ℕ) where
  unfoldable pub normalize_user_code : List ℕ → List ℕ
  unfolding select
  normalize_user_code code = upper (select is_alnum code)

-- `_device_secret_matches`: `hash` is `_hash_device_secret`, 0 the blank secret and the blank hash.
module _ (hash : ℕ → ℕ) where
  unfoldable pub device_secret_matches : ℕ → ℕ → Bool
  device_secret_matches presented stored_hash =
      if presented == 0 || stored_hash == 0 then false else hash presented == stored_hash

-- `Store._key` and `Store.put`.
unfoldable pub key : String → String
key session_id = "device_session:" ++ session_id

module _ {C : Type 0} (cache : Cache String DeviceSessionState C) (s : SessionSettings)
    (hash : ℕ → ℕ) (is_alnum : ℕ → Bool) (upper : List ℕ → List ℕ) where
  unfoldable pub put : ℕ → String → DeviceSessionState → C → C
  unfolding is_completed key
  put now session_id state c =
      cache.set now (key session_id) state
        (if is_completed state
          then s.device_session_completed_ttl_seconds
          else s.device_session_pending_ttl_seconds)
        c

  -- `DeviceSessionsCreateView.post`, with the secrets that it draws.
  unfoldable pub create : ℕ → String → List ℕ → ℕ → Option ℕ → ℕ → C → Response × C
  unfolding put
  create now session_id user_code device_secret ip client c = (
    session_created session_id user_code device_secret s.device_session_pending_ttl_seconds,
    put now session_id
        (record {
          status = pending;
          created_at = now;
          user_code = user_code;
          device_secret_hash = hash device_secret;
          initiator_ip = ip;
          initiator = client;
          access_token = none;
          refresh_token = none;
          expires_in = none;
          token_type = none;
          user = none;
        })
        c,
  )

  -- `DeviceSessionPollView.get`, with the header's secret.
  unfoldable pub poll : ℕ → String → ℕ → C → Response × C
  unfolding key is_completed device_secret_matches cli_poll_view
  poll now session_id presented c =
      if presented == 0
      then (missing_device_secret, c)
      else elim (cache.get now (key session_id) c) [
        | none ↦ (session_expired, c)
        | some state ↦
            if not (device_secret_matches hash presented state.device_secret_hash)
            then (invalid_device_secret, c)
            else (
              polled (cli_poll_view state),
              if is_completed state then cache.delete (key session_id) c else c,
            )
      ]

  -- `DeviceSessionInfoView.get` and `DeviceSessionDenyView.post`.
  unfoldable pub get_info : ℕ → String → C → Response × C
  unfolding key info_view
  get_info now session_id c = elim (cache.get now (key session_id) c) [
    | none ↦ (session_expired, c)
    | some state ↦ (info (info_view state), c)
  ]

  unfoldable pub deny : String → C → Response × C
  unfolding key
  deny session_id c = (denied, cache.delete (key session_id) c)

  -- `DeviceSessionCompleteView.post`, with the pair that `mint_pair` gives its user.
  unfoldable pub complete : ℕ → String → List ℕ → TokenPair → C → Response × C
  unfolding normalize_user_code key is_completed complete_with put same_text
  complete now session_id submitted pair c =
      let submitted_code = normalize_user_code is_alnum upper submitted in
      if same_text submitted_code []
      then (missing_user_code, c)
      else elim (cache.get now (key session_id) c) [
        | none ↦ (session_expired, c)
        | some state ↦
            let stored_code = normalize_user_code is_alnum upper state.user_code in
            if is_completed state
            then (session_already_completed, c)
            else if same_text stored_code [] || not (same_text submitted_code stored_code)
            then (code_mismatch, c)
            else (authorized, put now session_id (complete_with pair state) c)
      ]
