-- ===== src/Access/Routes.antt =====
-- The account routes of api/routes/auth.py of src/planagent: login, refresh, change-password, logout
-- and register, over the accounts and the login limiter. The bodies are those that the request
-- models accept; `str.casefold` is an argument. Monotonic clock readings are microseconds.
use ming_jian.Base.{ℕ, String, Bool, true, false, Option, none, some, ◌==◌, if◌then◌else◌}
use Prim.Native.Char.{nul}
use Prim.Native.String.{◌++◌}
use ming_jian.Base.Texts.{strip, partition_at}
use ming_jian.LoginThrottle.{LoginAttemptLimiter, retry_after, record_failure, clear}
use ming_jian.Auth.{
  UserRole, AuthUser, Payload, AuthService, TokenPair, AuthError, multiple_found, Reply, returned,
  raised, Crypto, is_text,
}
use ming_jian.Auth.Tokens.{verify_token, refresh_access_token, revoke_token}
use ming_jian.Auth.Users.{authenticate, change_password, revoke_user_sessions, create_user}
use ming_jian.Access.{Network, Resolved, allowed, denied}
use ming_jian.Access.Middleware.{verify_bearer}

-- The state of the application that the routes use, and the setting remote_access_enabled.
pub record Server : Type 0 where
  pub auth : AuthService
  pub limiter : LoginAttemptLimiter
  pub remote_access_enabled : Bool

-- A route's answer: tokens, a new user, a message, a status with or without Retry-After, or an
-- exception that the route does not handle.
pub data Answer (Token : Type 0) : Type 0 where
  tokens : TokenPair Token → Answer Token
  created : AuthUser → Answer Token
  message : Answer Token
  too_many : ℕ → Answer Token
  status : ℕ → Answer Token
  crash : AuthError → Answer Token

abbrev pub host_or_unknown : Option String → String
host_or_unknown none = "unknown"
host_or_unknown (some h) = h

-- `_login_attempt_key`
abbrev pub login_attempt_key : (String → String) → Option String → String → String
login_attempt_key casefold host name =
    host_or_unknown host ++ String.◌∷◌ nul (casefold (strip name))

abbrev pub end_sessions : ℕ → Option String → AuthService → AuthService
end_sessions now none s = s
end_sessions now (some i) s = (revoke_user_sessions now i s).1

-- A session for remote access is for administrators: any other is revoked.
abbrev pub admin_session : ℕ → AuthService → Option Payload → Bool × AuthService
admin_session now s none = (false, s)
admin_session now s (some p) =
    if is_text p.role "admin" then (true, s) else (false, end_sessions now p.sub s)

-- `str(payload["sub"])`
abbrev pub subject : Option String → String
subject none = "None"
subject (some i) = i

-- The token of a header authorization.
abbrev pub bearer_token : Option String → String
bearer_token none = ""
bearer_token (some a) = (partition_at 32 a).1

module _ {Token : Type 0} (lib : Crypto Token) where
  -- `_enforce_remote_admin_session`: whether it lets the session pass.
  unfoldable pub enforce_remote_admin_session : ℕ → Bool → Token → AuthService → Bool × AuthService
  enforce_remote_admin_session now remote t s =
      if remote then admin_session now s (verify_token lib now t s) else (true, s)

  abbrev pub session_answer : TokenPair Token → Server → Bool × AuthService → Answer Token × Server
  session_answer pair sv (true, s) = (tokens pair, record sv { auth = s })
  session_answer pair sv (false, s) = (status 403, record sv { auth = s })

  abbrev pub login_enforced :
      String
      → LoginAttemptLimiter
      → TokenPair Token
      → Server
      → Bool × AuthService
      → Answer Token × Server
  login_enforced key l pair sv (true, s) =
      (tokens pair, record sv { auth = s; limiter = clear key l })
  login_enforced key l pair sv (false, s) = (status 403, record sv { auth = s; limiter = l })

  abbrev pub login_answer :
      ℕ
      → ℕ
      → String
      → LoginAttemptLimiter
      → Server
      → Reply (Option (TokenPair Token)) × AuthService
      → Answer Token × Server
  login_answer tick now key l sv (raised e, s) = (crash e, record sv { auth = s; limiter = l })
  login_answer tick now key l sv (returned none, s) =
      (status 401, record sv { auth = s; limiter = record_failure tick key l })
  login_answer tick now key l sv (returned (some pair), s) =
      login_enforced key l pair sv
        (enforce_remote_admin_session now sv.remote_access_enabled pair.access_token s)

  abbrev pub login_checked :
      ℕ
      → ℕ
      → String
      → String
      → String
      → Server
      → Option ℕ × LoginAttemptLimiter
      → Answer Token × Server
  login_checked tick now key name w sv (some wait, l) = (too_many wait, record sv { limiter = l })
  login_checked tick now key name w sv (none, l) =
      login_answer tick now key l sv (authenticate lib now name w sv.auth)

  -- `login` from the client of this host; `tick` reads the monotonic clock.
  unfoldable pub login :
      (String → String) → ℕ → ℕ → Option String → String → String → Server → Answer Token × Server
  unfolding enforce_remote_admin_session
  login casefold tick now host name w sv =
      let key = login_attempt_key casefold host name in
      login_checked tick now key name w sv (retry_after tick key sv.limiter)

  abbrev pub refresh_answer :
      ℕ → Server → Reply (Option (TokenPair Token)) × AuthService → Answer Token × Server
  refresh_answer now sv (raised e, s) = (crash e, record sv { auth = s })
  refresh_answer now sv (returned none, s) = (status 401, record sv { auth = s })
  refresh_answer now sv (returned (some pair), s) =
      session_answer pair sv
        (enforce_remote_admin_session now sv.remote_access_enabled pair.access_token s)

  -- `refresh_token`
  unfoldable pub refresh : ℕ → Token → Server → Answer Token × Server
  unfolding enforce_remote_admin_session
  refresh now t sv = refresh_answer now sv (refresh_access_token lib now t sv.auth)

  -- A registration that is refused for a name or an address is a 409.
  abbrev pub register_answer : Server → Reply AuthUser × AuthService → Answer Token × Server
  register_answer sv (returned u, s) = (created u, record sv { auth = s })
  register_answer sv (raised multiple_found, s) = (crash multiple_found, record sv { auth = s })
  register_answer sv (raised e, s) = (status 409, record sv { auth = s })

  -- `register`
  unfoldable pub register : String → String → String → UserRole → Server → Answer Token × Server
  register name mail w r sv =
      if sv.remote_access_enabled
      then (status 403, sv)
      else register_answer sv (create_user lib name mail w r sv.auth)

  module _ (read : String → Token) (net : Network) where
    abbrev pub changed : ℕ → Option String → Server → Bool × AuthService → Answer Token × Server
    changed now a sv (false, s) = (status 400, record sv { auth = s })
    changed now a sv (true, s) =
        let t = bearer_token a in
        (message, record sv { auth = if t == "" then s else revoke_token lib now (read t) s })

    abbrev pub change_for :
        ℕ → Option String → String → String → Server → Resolved → Answer Token × Server
    change_for now a old new sv (denied n) = (status n, sv)
    change_for now a old new sv (allowed p) =
        changed now a sv (change_password lib now (subject p.sub) old new sv.auth)

    -- `change_password`, with the header authorization.
    unfoldable pub change_password_route :
        ℕ → Option String → String → String → Server → Answer Token × Server
    change_password_route now a old new sv =
        change_for now a old new sv (verify_bearer lib read net now a sv.auth)

    abbrev pub logout_for : ℕ → Server → Resolved → Answer Token × Server
    logout_for now sv (denied n) = (status n, sv)
    logout_for now sv (allowed p) =
        (message, record sv { auth = (revoke_user_sessions now (subject p.sub) sv.auth).1 })

    -- `logout`
    unfoldable pub logout_route : ℕ → Option String → Server → Answer Token × Server
    logout_route now a sv = logout_for now sv (verify_bearer lib read net now a sv.auth)
