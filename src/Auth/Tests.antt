-- ===== src/Auth/Tests.antt =====
-- The theorems of the device sessions, at one handshake.
use Prim.Native.String.{String}
use text.Mathlib.Text.{◌==◌ as ◌=s=◌}
use text.Mathlib.TextEquality.{eq_iff}
use openmagpie.Prelude.{ℕ, ◌+◌, ◌≡◌, ◌≢◌, refl, Bool, none, some, List, [], ◌∷◌, arith, not, ◌==◌}
use openmagpie.Common.Cache.{Cache}
use openmagpie.Common.Memory.{Memory, memory}
use openmagpie.Auth.DeviceSessions.{
  DeviceSessionState, SessionSettings, TokenPair, PollView, completed, authorized, polled,
  session_expired, create, complete, poll, cli_poll_view, complete_with, normalize_user_code,
  same_text,
}
use openmagpie.Auth.DeviceSessions.Handshake.{create-complete-poll}
use openmagpie.Auth.DeviceSessions.Once.{complete-complete, poll-poll}

abbrev bags : Cache String DeviceSessionState (Memory String DeviceSessionState)
bags = memory (λ a b. a =s= b) eq_iff

abbrev empty : Memory String DeviceSessionState
empty key = none

abbrev ttls : SessionSettings
ttls = record {
  device_session_pending_ttl_seconds = 900;
  device_session_completed_ttl_seconds = 300;
}

abbrev digest : ℕ → ℕ
digest secret = secret + 1000

-- 45 is the hyphen of a code.
abbrev is_alnum : ℕ → Bool
is_alnum c = not (c == 45)

abbrev upper : List ℕ → List ℕ
upper code = code

abbrev pair : TokenPair
pair = record { access_token = 61; refresh_token = 62; expires_in = 3600; token_type = 1; user = 4 }

abbrev pending_bags : Memory String DeviceSessionState
pending_bags =
    (create bags ttls digest is_alnum upper 100 "s1" (66 ∷ 45 ∷ 67 ∷ []) 5 none 0 empty).1

abbrev completed_bags : Memory String DeviceSessionState
completed_bags =
    (complete bags ttls digest is_alnum upper 200 "s1" (66 ∷ 67 ∷ []) pair pending_bags).1

abbrev answer : PollView
answer = record {
  status = completed;
  created_at = 100;
  access_token = some 61;
  refresh_token = some 62;
  expires_in = some 3600;
  token_type = some 1;
  user = some 4;
}

create-complete-poll_example :
    ((complete bags ttls digest is_alnum upper 200 "s1" (66 ∷ 67 ∷ []) pair pending_bags).0
      ≡ authorized)
    × ((poll bags ttls digest is_alnum upper 202 "s1" 5 completed_bags).0 ≡ polled answer)
    × ((poll bags ttls digest is_alnum upper 204 "s1" 5
          (poll bags ttls digest is_alnum upper 202 "s1" 5 completed_bags).1).0
        ≡ session_expired)
unfolding cli_poll_view complete_with normalize_user_code same_text
create-complete-poll_example =
    create-complete-poll bags ttls digest is_alnum upper "s1" (66 ∷ 45 ∷ 67 ∷ []) (66 ∷ 67 ∷ []) 5 0
      100 200 202 204 5 none pair empty (ground arith) (ground arith) (omega arith) (omega arith)
      (omega arith) (omega arith) (ground arith) refl refl

complete_lem :
    (complete bags ttls digest is_alnum upper 200 "s1" (66 ∷ 67 ∷ []) pair pending_bags).0
    ≡ authorized
unfolding complete create
complete_lem = refl

complete-complete_example :
    ((complete bags ttls digest is_alnum upper 250 "s1" (66 ∷ 67 ∷ []) pair completed_bags).0
      ≢ authorized)
    × ((complete bags ttls digest is_alnum upper 250 "s1" (66 ∷ 67 ∷ []) pair completed_bags).1
        ≡ completed_bags)
complete-complete_example =
    complete-complete bags ttls digest is_alnum upper 200 250 "s1" (66 ∷ 67 ∷ []) (66 ∷ 67 ∷ [])
      pair pair pending_bags (omega arith) complete_lem

poll_lem : (poll bags ttls digest is_alnum upper 202 "s1" 5 completed_bags).0 ≡ polled answer
unfolding complete create poll
poll_lem = refl

poll-poll_example :
    (poll bags ttls digest is_alnum upper 204 "s1" 5
      (poll bags ttls digest is_alnum upper 202 "s1" 5 completed_bags).1).0
    ≢ polled answer
poll-poll_example =
    poll-poll bags ttls digest is_alnum upper 202 204 "s1" 5 5 answer answer completed_bags poll_lem
      refl
