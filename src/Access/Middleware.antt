-- ===== src/Access/Middleware.antt =====
-- The decision of `CommunityAccessMiddleware.__call__`, api/access.py of src/planagent, and
-- `resolve_community_access` of api/routes/auth.py. The cache headers of answers are left out.
use ming_jian.Base.{
  ℕ, String, Bool, true, false, not, ◌&&◌, ◌||◌, List, [], ◌∷◌, Option, none, some, eqb, ◌==◌,
  if◌then◌else◌, is_none, is_some,
}
use Prim.Native.String.{◌++◌}
use ming_jian.Base.Texts.{lower_is, partition_at}
use ming_jian.Auth.{Payload, AuthService, Crypto}
use ming_jian.Auth.Tokens.{verify_token}
use ming_jian.Access.{
  ScopeType, http, websocket, other_type, Scope, Settings, SplitUrl, Network, member, scope_header,
  has_valid_local_proxy_credential, is_public_request, request_has_body, is_forbidden_viewer_write,
  scope_browser_authorization, Resolved, allowed, denied, local_session, verified, admin_only,
  is_loopback_client, Outcome, passes_through, closes, responds, reaches, refused, handed,
}
use ming_jian.Access.Body.{Message, receive_body}

-- Ports are equal, where one may be absent.
abbrev pub same_port : Option ℕ → Option ℕ → Bool
same_port none none = true
same_port (some a) (some b) = eqb a b
same_port none (some b) = false
same_port (some a) none = false

abbrev pub host_parts : SplitUrl → Option String → Option (Option ℕ) → Option (String × Option ℕ)
host_parts u none p = none
host_parts u (some h) none = none
host_parts u (some h) (some p) =
    if is_some u.username || is_some u.password then none else some (h, p)

-- `_parse_host`
abbrev pub parse_host : Network → Option String → Option (String × Option ℕ)
parse_host net none = none
parse_host net (some raw) =
    let u = net.urlsplit ("//" ++ raw) in if raw == "" then none else host_parts u u.hostname u.port

abbrev pub web_scheme : String → Bool
web_scheme s = (s == "http") || (s == "https")

-- The comparison of an origin with the host, past the checks on its parts.
abbrev pub same_origin :
    Settings → SplitUrl → String × Option ℕ → Option String → Option (Option ℕ) → Bool
same_origin st u host none p = false
same_origin st u host (some h) none = false
same_origin st u host (some h) (some p) =
    member (u.scheme ++ ("://" ++ u.netloc)) st.cors_origins
    || ((h == host.0) && same_port p host.1)

abbrev pub origin_allowed : Network → Settings → String × Option ℕ → Option String → Bool
origin_allowed net st host none = true
origin_allowed net st host (some origin) =
    let u = net.urlsplit origin in
    web_scheme u.scheme
    && is_none u.username
    && is_none u.password
    && (u.path == "")
    && (u.query == "")
    && (u.fragment == "")
    && same_origin st u host u.hostname u.port

abbrev pub is_test_client : Option String → Bool
is_test_client none = false
is_test_client (some h) = h == "testclient"

abbrev pub host_allowed : Network → Settings → Scope → Option (String × Option ℕ) → Bool
host_allowed net st sc none = false
host_allowed net st sc (some host) =
    (member host.0 ("localhost" ∷ "127.0.0.1" ∷ "::1" ∷ st.bind_host ∷ [])
      || (is_test_client sc.client_host && (host.0 == "testserver"))
      || net.is_loopback_ip host.0)
    && origin_allowed net st host (scope_header "origin" sc.headers)

-- The credential of a proxy in the same deployment.
abbrev pub has_proxy_credential : Settings → Scope → Bool
has_proxy_credential st sc =
    has_valid_local_proxy_credential st.local_proxy_secret
      (scope_header "x-mingjian-local-proxy" sc.headers)

-- `_is_trusted_local_request`
unfoldable pub is_trusted_local_request : Network → Settings → Scope → Bool
is_trusted_local_request net st sc =
    has_proxy_credential st sc
    || not (is_loopback_client net sc.client_host)
    || host_allowed net st sc (parse_host net (scope_header "host" sc.headers))

-- The number in the header content-length.
abbrev pub declared_length : Network → Option String → Option ℕ
declared_length net none = none
declared_length net (some t) = net.to_int t

-- The application, behind the limit on the body where the method has one.
unfoldable pub call_app :
    Network → Settings → Scope → Option Payload → Option String → List Message → Outcome
unfolding receive_body
call_app net st sc p protocol ms =
    if request_has_body sc
    then handed p protocol (
        receive_body st.max_request_body_bytes
          (declared_length net (scope_header "content-length" sc.headers)) ms)
    else reaches p protocol none

abbrev pub admitted_scope :
    Network → Settings → Scope → Option String → List Message → Payload → ScopeType → Outcome
admitted_scope net st sc protocol ms p http =
    if is_forbidden_viewer_write sc p then responds 403 else call_app net st sc (some p) protocol ms
admitted_scope net st sc protocol ms p websocket = reaches (some p) protocol none
admitted_scope net st sc protocol ms p other_type = passes_through

-- What follows once the access is resolved.
unfoldable pub admitted :
    Network → Settings → Scope → Option String → List Message → Resolved → Outcome
admitted net st sc protocol ms (denied n) = refused sc.scope_type n
admitted net st sc protocol ms (allowed p) = admitted_scope net st sc protocol ms p sc.scope_type

-- The authorization that is read, and the protocol that is selected with it.
abbrev pub browser_pair : Option String → Option String × Option String
browser_pair none = (none, none)
browser_pair (some bearer) = (some bearer, some "mingjian.jwt")

abbrev pub offered : Settings → Scope → ScopeType → Option String → Option String × Option String
offered st sc websocket none =
    if st.remote_access_enabled then browser_pair (scope_browser_authorization sc) else (none, none)
offered st sc websocket (some a) = (some a, none)
offered st sc http a = (a, none)
offered st sc other_type a = (a, none)

module _ {Token : Type 0} (lib : Crypto Token) (read : String → Token) (net : Network) where
  -- `_verify_bearer_authorization`; `read` takes a text as a token.
  unfoldable pub verify_bearer : ℕ → Option String → AuthService → Resolved
  verify_bearer now none s = denied 401
  verify_bearer now (some a) s =
      let parts = partition_at 32 a in
      if lower_is parts.0 "bearer" && not (parts.1 == "")
      then verified (verify_token lib now (read parts.1) s)
      else denied 401

  -- `resolve_community_access`
  unfoldable pub resolve_community_access :
      ℕ → Settings → Scope → Option String → AuthService → Resolved
  unfolding verify_bearer
  resolve_community_access now st sc authorization s =
      if st.remote_access_enabled
      then admin_only (verify_bearer now authorization s)
      else if is_loopback_client net sc.client_host || has_proxy_credential st sc
      then allowed local_session
      else denied 403

  abbrev pub guarded : ℕ → Settings → Scope → List Message → AuthService → Outcome
  guarded now st sc ms s =
      let offer = offered st sc sc.scope_type (scope_header "authorization" sc.headers) in
      admitted net st sc offer.1 ms (resolve_community_access now st sc offer.0 s)

  -- Public requests are answered without a session.
  abbrev pub by_type : ℕ → Settings → Scope → List Message → AuthService → ScopeType → Outcome
  by_type now st sc ms s other_type = passes_through
  by_type now st sc ms s websocket =
      if not st.remote_access_enabled && not (is_trusted_local_request net st sc)
      then closes
      else guarded now st sc ms s
  by_type now st sc ms s http =
      if not st.remote_access_enabled && not (is_trusted_local_request net st sc)
      then responds 403
      else if is_public_request sc st.remote_access_enabled
      then call_app net st sc none none ms
      else guarded now st sc ms s

  -- `__call__`
  unfoldable pub middleware : ℕ → Settings → Scope → List Message → AuthService → Outcome
  unfolding resolve_community_access admitted
  middleware now st sc ms s = by_type now st sc ms s sc.scope_type
