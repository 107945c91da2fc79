-- ===== src/Access.antt =====
-- The access policy: `CommunityAccessMiddleware` of api/access.py of src/planagent, with
-- `resolve_community_access` and the checks of authorization of api/routes/auth.py.
pub mod Body
pub mod Routes
pub mod Middleware
pub mod Admission
pub mod Remote
pub mod Local
pub mod Sessions
mod Tests
use ming_jian.Base.{
  ℕ, ◌+◌, String, Bool, true, false, not, ◌&&◌, ◌||◌, List, [], ◌∷◌, map, Option, none, some, eqb,
  ◌==◌, if◌then◌else◌, is_none, is_some, any_of, keep_if,
}
use text.Mathlib.Text.{starts_with}
use Prim.Native.String.{◌++◌}
use ming_jian.Base.Texts.{strip, lower_is, split_at, partition_at, drop_text}
use ming_jian.Auth.{Payload, AuthService, Crypto, is_text}
use ming_jian.Auth.Tokens.{verify_token}
use Body.{Message, Received, receive_body}

pub data ScopeType : Type 0 where
  http websocket other_type : ScopeType

-- An ASGI scope. `method` is in upper case and a header's key in lower case, as ASGI has them.
pub record Scope : Type 0 where
  pub scope_type : ScopeType
  pub method : String
  pub path : String
  pub headers : List (String × String)
  pub client_host : Option String

-- The fields of Settings that are read; `bind_host` in lower case.
pub record Settings : Type 0 where
  pub remote_access_enabled : Bool
  pub local_proxy_secret : String
  pub bind_host : String
  pub cors_origins : List String
  pub max_request_body_bytes : ℕ

-- What urlsplit makes of a text. `hostname` is in lower case, as urllib documents; `port` is `none`
-- where reading it is a ValueError.
pub record SplitUrl : Type 0 where
  pub scheme : String
  pub netloc : String
  pub path : String
  pub query : String
  pub fragment : String
  pub username : Option String
  pub password : Option String
  pub hostname : Option String
  pub port : Option (Option ℕ)

-- urllib's urlsplit, ipaddress (`ip_address(host).is_loopback`, false on a ValueError) and
-- `int(text)` (`none` on a ValueError and for a negative number).
pub record Network : Type 0 where
  pub urlsplit : String → SplitUrl
  pub is_loopback_ip : String → Bool
  pub to_int : String → Option ℕ

abbrev pub member : String → List String → Bool
member t ts = any_of (λ s. s == t) ts

-- `_scope_header`
abbrev pub scope_header : String → List (String × String) → Option String
scope_header k [] = none
scope_header k ((j, v) ∷ hs) = if j == k then some v else scope_header k hs

abbrev pub or_empty : Option String → String
or_empty none = ""
or_empty (some t) = t

-- `_has_valid_local_proxy_credential`
unfoldable pub has_valid_local_proxy_credential : String → Option String → Bool
has_valid_local_proxy_credential secret given =
    let configured = strip secret in
    let provided = strip (or_empty given) in
    not (configured == "") && not (provided == "") && (configured == provided)

-- `_canonical_path`
unfoldable pub canonical_path : String → String
canonical_path p = if p == "/api" then "/" else if starts_with p "/api/" then drop_text 4 p else p

abbrev pub public_get_paths : List String
public_get_paths =
    "/docs" ∷ "/docs/oauth2-redirect" ∷ "/health" ∷ "/health/live" ∷ "/health/ready"
    ∷ "/openapi.json" ∷ "/redoc" ∷ []

abbrev pub public_auth_post_paths : List String
public_auth_post_paths = "/auth/login" ∷ "/auth/refresh" ∷ "/auth/register" ∷ []

abbrev pub viewer_account_write_paths : List String
viewer_account_write_paths = "/auth/change-password" ∷ "/auth/logout" ∷ []

abbrev pub safe_methods : List String
safe_methods = "GET" ∷ "HEAD" ∷ "OPTIONS" ∷ []

-- `_is_public_request`
unfoldable pub is_public_request : Scope → Bool → Bool
is_public_request sc expose =
    (sc.method == "OPTIONS")
    || (member sc.method ("GET" ∷ "HEAD" ∷ []) && member (canonical_path sc.path) public_get_paths)
    || (expose && (sc.method == "POST") && member (canonical_path sc.path) public_auth_post_paths)

-- `_request_has_body`
abbrev pub request_has_body : Scope → Bool
request_has_body sc = not (member sc.method safe_methods)

-- `_is_forbidden_viewer_write`
unfoldable pub is_forbidden_viewer_write : Scope → Payload → Bool
is_forbidden_viewer_write sc p =
    is_text p.role "viewer"
    && request_has_body sc
    && not (member (canonical_path sc.path) viewer_account_write_paths)

-- `_scope_browser_authorization`: the token offered after the marker.
browser_after : List String → Option String
browser_after [] = none
browser_after (p ∷ []) = none
browser_after (p ∷ q ∷ ps) =
    let rest = browser_after (q ∷ ps) in if p == "mingjian.jwt" then some ("Bearer " ++ q) else rest

browser_offered : Option String → Option String
unfolding browser_after
browser_offered none = none
browser_offered (some raw) =
    browser_after (map strip (keep_if (λ t. not (strip t == "")) (split_at 44 raw)))

unfoldable pub scope_browser_authorization : Scope → Option String
unfolding browser_offered
scope_browser_authorization sc = browser_offered (scope_header "sec-websocket-protocol" sc.headers)

-- An HTTPException's status, or the payload.
pub data Resolved : Type 0 where
  allowed : Payload → Resolved
  denied : ℕ → Resolved

abbrev pub local_session : Payload
local_session = record {
  jti = none;
  sub = some "community-local";
  username = some "local";
  email = none;
  role = some "admin";
  ver = none;
  token_type = some "local_session";
  iss = some "planagent-community";
  iat = none;
  exp = none;
}

abbrev pub verified : Option Payload → Resolved
verified none = denied 401
verified (some p) = allowed p

-- Remote access asks for the role admin.
abbrev pub admin_only : Resolved → Resolved
admin_only (denied n) = denied n
admin_only (allowed p) = if is_text p.role "admin" then allowed p else denied 403

-- `_is_loopback_client`
abbrev pub is_loopback_client : Network → Option String → Bool
is_loopback_client net none = false
is_loopback_client net (some h) = (h == "testclient") || (not (h == "") && net.is_loopback_ip h)

-- What the application is handed, or what is sent instead of calling it.
pub data Outcome : Type 0 where
  passes_through waits closes : Outcome
  responds : ℕ → Outcome
  reaches : Option Payload → Option String → Option Message → Outcome

-- The application is called with the body that was read.
abbrev pub handed : Option Payload → Option String → Received → Outcome
handed p protocol (Received.replays m rest) = reaches p protocol (some m)
handed p protocol Received.too_large = responds 413
handed p protocol Received.out_of_messages = waits

abbrev pub refused : ScopeType → ℕ → Outcome
refused websocket n = closes
refused http n = responds n
refused other_type n = responds n
