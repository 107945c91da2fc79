-- ===== src/Access/Tests.antt =====
-- Requests and logins: the theorems of Access at concrete inputs.
use ming_jian.Base.{
  String, Option, ◌≡◌, refl, inr, true, false, List, [], ◌∷◌, none, some, arith, ◌==◌,
}
use ming_jian.Base.Dict.{lookup, erase}
use ming_jian.Base.Texts.{drop_text, strip, lower_is, partition_at}
use ming_jian.LoginThrottle.{LoginAttemptLimiter, retry_after, record_failure, evict_oldest}
use ming_jian.LoginThrottle.Lockout.{live_only}
use ming_jian.LoginThrottle.Invariant.{IsValid}
use ming_jian.Auth.{admin, is_text, AuthUser, Payload, AuthService}
use ming_jian.Auth.Tokens.{
  access_payload, verify_token, new_access, new_refresh, is_token_revoked, refresh_access_token,
}
use ming_jian.Auth.Users.{authenticate}
use ming_jian.Auth.History.{logs_in, run}
use ming_jian.Auth.Rotation.{granted}
use ming_jian.Auth.Sample.{plain, settings, fresh_service, ann, with_ann}
use ming_jian.Access.{
  http, Scope, Settings, Network, is_public_request, local_session, reaches,
  has_valid_local_proxy_credential, canonical_path, is_forbidden_viewer_write,
}
use ming_jian.Access.Body.{Message, request, replays, too_large, receive_body, pieces, body_exact}
use ming_jian.Access.Middleware.{middleware, call_app, is_trusted_local_request}
use ming_jian.Access.Remote.{remote_admin_only}
use ming_jian.Access.Admission.{OfAdmin}
use ming_jian.Access.Local.{IsLocal, trusted_peers_only}
use ming_jian.Access.Routes.{Server, login, login_attempt_key, status, too_many}
use ming_jian.Access.Sessions.{after_logins, AllWrong, wrong_logins_lock, remote_login_closed}

-- A body of five bytes in two pieces, against limits of five and of four.
two_pieces :
    receive_body 5 (some 5) (pieces ((1 ∷ 2 ∷ []) ∷ []) (3 ∷ 4 ∷ 5 ∷ []) [])
    ≡ replays (request (1 ∷ 2 ∷ 3 ∷ 4 ∷ 5 ∷ []) false) []
unfolding receive_body
two_pieces = refl

body_exact_example :
    receive_body 4 none (pieces ((1 ∷ 2 ∷ []) ∷ []) (3 ∷ 4 ∷ 5 ∷ []) []) ≡ too_large
body_exact_example = body_exact 4 none ((1 ∷ 2 ∷ []) ∷ []) (3 ∷ 4 ∷ 5 ∷ []) [] refl

-- Every text is split as http://localhost:8000, and only 127.0.0.1 is a loopback address.
abbrev plain_network : Network
plain_network = record {
  urlsplit = λ t. record {
    scheme = "http";
    netloc = "localhost:8000";
    path = "";
    query = "";
    fragment = "";
    username = none;
    password = none;
    hostname = some "localhost";
    port = some (some 8000);
  };
  is_loopback_ip = λ t. t == "127.0.0.1";
  to_int = λ t. none;
}

abbrev remote_settings : Settings
remote_settings = record {
  remote_access_enabled = true;
  local_proxy_secret = "";
  bind_host = "0.0.0.0";
  cors_origins = [];
  max_request_body_bytes = 100;
}

abbrev local_settings : Settings
local_settings = record remote_settings { remote_access_enabled = false }

abbrev root : AuthUser
root = record ann { username = "root"; role = admin }

abbrev with_root : AuthService
with_root = record fresh_service { users = root ∷ []; drawn = 2 }

abbrev root_payload : Payload
root_payload = access_payload settings 100 "2" root

abbrev posted : Scope
posted = record {
  scope_type = http;
  method = "POST";
  path = "/api/ingest";
  headers = ("host", "localhost:8000") ∷ ("authorization", "Bearer x") ∷ [];
  client_host = some "127.0.0.1";
}

abbrev body : List Message
body = request (1 ∷ 2 ∷ []) false ∷ []

root_reaches :
    middleware plain (λ t. root_payload) plain_network 200 remote_settings posted body with_root
    ≡ reaches (some root_payload) none (some (request (1 ∷ 2 ∷ []) false))
unfolding middleware verify_token receive_body is_public_request canonical_path drop_text call_app
    is_forbidden_viewer_write is_trusted_local_request has_valid_local_proxy_credential strip
    lower_is partition_at is_token_revoked
root_reaches = refl

posted_private : is_public_request posted true ≡ false
unfolding is_public_request canonical_path drop_text
posted_private = refl

remote_admin_only_example :
    (p : Payload) × (some root_payload ≡ some p)
    × (is_text p.role "admin" ≡ true)
    × OfAdmin with_root.users p.sub
remote_admin_only_example =
    remote_admin_only plain (λ t. root_payload) plain_network 200 remote_settings posted body
      with_root (some root_payload) none (some (request (1 ∷ 2 ∷ []) false)) refl
      (inr posted_private) root_reaches

posted_reaches_locally :
    middleware plain (λ t. root_payload) plain_network 200 local_settings posted body with_root
    ≡ reaches (some local_session) none (some (request (1 ∷ 2 ∷ []) false))
unfolding middleware verify_token receive_body is_public_request canonical_path drop_text call_app
    is_forbidden_viewer_write is_trusted_local_request has_valid_local_proxy_credential strip
    lower_is partition_at is_token_revoked
posted_reaches_locally = refl

posted_private_locally : is_public_request posted false ≡ false
unfolding is_public_request canonical_path drop_text
posted_private_locally = refl

trusted_peers_only_example :
    (some local_session ≡ some local_session) × IsLocal plain_network local_settings posted
trusted_peers_only_example =
    trusted_peers_only plain (λ t. root_payload) plain_network 200 local_settings posted body
      with_root (some local_session) none (some (request (1 ∷ 2 ∷ []) false)) refl
      (inr posted_private_locally) posted_reaches_locally

abbrev two_failures : LoginAttemptLimiter
two_failures = record { max_failures = 2; window_seconds = 10; max_entries = 5; attempts = [] }

two_failures-IsValid : IsValid two_failures
two_failures-IsValid = omega arith

abbrev server : Server
server = record { auth = with_ann; limiter = two_failures; remote_access_enabled = true }

abbrev same_case : String → String
same_case t = t

abbrev from_client : Option String
from_client = some "h"

both_wrong :
    AllWrong plain same_case from_client "ann" ((0, 100, "guess") ∷ (5, 101, "again") ∷ []) server
unfolding strip login authenticate retry_after record_failure lookup erase evict_oldest
both_wrong = (refl, (refl, tt))

key_unknown :
    live_only 0 (lookup (login_attempt_key same_case from_client "ann") two_failures.attempts)
    ≡ none
unfolding lookup
key_unknown = refl

wrong_logins_lock_example :
    ((login plain same_case 20 102 from_client "ann" "word" (
        after_logins plain same_case from_client "ann"
          ((0, 100, "guess") ∷ (5, 101, "again") ∷ [])
          server)).0
      ≡ too_many 10)
    × ((login plain same_case 20 102 from_client "ann" "word" (
          after_logins plain same_case from_client "ann"
            ((0, 100, "guess") ∷ (5, 101, "again") ∷ [])
            server)).1.auth
        ≡ (after_logins plain same_case from_client "ann"
            ((0, 100, "guess") ∷ (5, 101, "again") ∷ [])
            server).auth)
wrong_logins_lock_example =
    wrong_logins_lock plain same_case from_client "ann" "guess" "word" 0 100 20 102
      ((5, 101, "again") ∷ []) server two_failures-IsValid key_unknown (omega arith) (omega arith)
      (omega arith) both_wrong

ann_open : (retry_after 0 (login_attempt_key same_case from_client "ann") two_failures).0 ≡ none
unfolding retry_after lookup
ann_open = refl

ann_token_open : is_token_revoked plain (new_access plain 100 ann with_ann) with_ann ≡ false
unfolding is_token_revoked
ann_token_open = refl

remote_login_closed_example :
    ((login plain same_case 0 100 from_client "ann" "word" server).0 ≡ status 403)
    × (verify_token plain 120 (new_access plain 100 ann with_ann) (
          run plain
            ((110, logs_in "ann" "word") ∷ [])
            (login plain same_case 0 100 from_client "ann" "word" server).1.auth)
        ≡ none)
    × (granted
          (refresh_access_token plain 120 (new_refresh plain 100 ann with_ann) (
            run plain
              ((110, logs_in "ann" "word") ∷ [])
              (login plain same_case 0 100 from_client "ann" "word" server).1.auth)).0
        ≡ false)
remote_login_closed_example =
    remote_login_closed plain same_case 0 100 120 from_client "ann" "word" ann server
      ((110, logs_in "ann" "word") ∷ []) refl refl ann_open refl refl refl refl refl refl
      ann_token_open (omega arith)
