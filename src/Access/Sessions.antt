-- ===== src/Access/Sessions.antt =====
-- The login route with the limiter and the accounts (api/routes/auth.py of src/planagent).
use ming_jian.Base.{
  ℕ, ◌+◌, ◌*◌, ◌≤◌, ◌<◌, String, ◌≡◌, ◌≢◌, refl, ap, ◌∙◌, Bool, true, false, List, [], ◌∷◌, map,
  Option, none, some, arith, ◌==◌, any_of, length, All,
}
use ming_jian.Base.Dict.{lookup}
use ming_jian.Base.Table.{find_row}
use ming_jian.LoginThrottle.{LoginAttemptLimiter, retry_after, record_failure, seconds_left}
use ming_jian.LoginThrottle.Invariant.{IsValid}
use ming_jian.LoginThrottle.Lockout.{
  live_only, fail_at, lockout_exact, retry_after-allowed, record_failure-purged,
}
use ming_jian.Auth.{AuthUser, AuthService, TokenPair, Reply, returned, raised, Crypto, role_value}
use ming_jian.Auth.Tokens.{
  has_hash, get_user, is_token_revoked, verify_token, new_access, new_refresh, access_payload,
  refresh_payload, refresh_access_token,
}
use ming_jian.Auth.Users.{is_named, authenticate, revoke_user_sessions}
use ming_jian.Auth.History.{Call, run}
use ming_jian.Auth.Rotation.{granted}
use ming_jian.Auth.Withdrawal.{logout, withdrawn_for_good}
use ming_jian.Auth.Barring.{get_user-edit}
use ming_jian.Auth.Login.{stamp, pair_of, after_login, authenticate-some, verify_token-own}
use ming_jian.Access.Routes.{
  Server, Answer, too_many, status, enforce_remote_admin_session, login_enforced, login_answer,
  login_checked, login, login_attempt_key,
}

logout_succeeds :
    (now : ℕ) (i : String) (u : AuthUser) (s : AuthService)
    → get_user i s.users ≡ some u
    → (revoke_user_sessions now i s).0 ≡ true
unfolding revoke_user_sessions
logout_succeeds now i u s e = rw e refl

module _ {Token : Type 0} (lib : Crypto Token) where
  enforced-ne-401 :
      (key : String) (l : LoginAttemptLimiter) (pair : TokenPair Token) (sv : Server)
      (x : Bool × AuthService)
      → (login_enforced lib key l pair sv x).0 ≢ status 401
  enforced-ne-401 key l pair sv (true, s) e = cc
  enforced-ne-401 key l pair sv (false, s) e = ground arith

  login_answer-401 :
      (tick now : ℕ) (key : String) (l : LoginAttemptLimiter) (sv : Server)
      (x : Reply (Option (TokenPair Token)) × AuthService)
      → (login_answer lib tick now key l sv x).0 ≡ status 401
      → (login_answer lib tick now key l sv x).1.limiter ≡ record_failure tick key l
  login_answer-401 tick now key l sv (raised e, s) h = cc
  login_answer-401 tick now key l sv (returned none, s) h = refl
  login_answer-401 tick now key l sv (returned (some pair), s) h =
      absurd (enforced-ne-401 key l pair sv _ h)

  login_checked-401 :
      (tick now : ℕ) (key name w : String) (sv : Server) (x : Option ℕ × LoginAttemptLimiter)
      → (login_checked lib tick now key name w sv x).0 ≡ status 401
      → (x.0 ≡ none)
        × ((login_checked lib tick now key name w sv x).1.limiter ≡ record_failure tick key x.1)
  login_checked-401 tick now key name w sv (some wait, l) h = cc
  login_checked-401 tick now key name w sv (none, l) h =
      (refl, login_answer-401 tick now key l sv (authenticate lib now name w sv.auth) h)

module _ {Token : Type 0} (lib : Crypto Token) (casefold : String → String) where
  abbrev key_of : Option String → String → String
  key_of = login_attempt_key casefold

  login-401 :
      (tick now : ℕ) (host : Option String) (name w : String) (sv : Server)
      → (login lib casefold tick now host name w sv).0 ≡ status 401
      → (login lib casefold tick now host name w sv).1.limiter
        ≡ record_failure tick (key_of host name) sv.limiter
  unfolding login
  login-401 tick now host name w sv h =
      let l = sv.limiter in
      let (open_key, counted_so) =
        login_checked-401 lib tick now (key_of host name) name w sv
          (retry_after tick (key_of host name) l) h in
      counted_so
      ∙ ap (record_failure tick (key_of host name))
          (retry_after-allowed tick (key_of host name) l open_key)
      ∙ record_failure-purged tick (key_of host name) l

  -- A login: the monotonic reading, the time and the password.
  abbrev pub Visit : Type 0
  Visit = ℕ × ℕ × String

  -- The server after a series of logins with one name from one client.
  abbrev pub after_logins : Option String → String → List Visit → Server → Server
  after_logins host name [] sv = sv
  after_logins host name ((tick, now, w) ∷ vs) sv =
      after_logins host name vs (login lib casefold tick now host name w sv).1

  -- All of them answered 401.
  abbrev pub AllWrong : Option String → String → List Visit → Server → Type 0
  AllWrong host name [] sv = Unit
  AllWrong host name ((tick, now, w) ∷ vs) sv =
      ((login lib casefold tick now host name w sv).0 ≡ status 401)
      × AllWrong host name vs (login lib casefold tick now host name w sv).1

  after_logins-limiter :
      (host : Option String) (name : String) (vs : List Visit) (sv : Server)
      → AllWrong host name vs sv
      → (after_logins host name vs sv).limiter
        ≡ fail_at (key_of host name) (map (λ (v : Visit). v.0) vs) sv.limiter
  after_logins-limiter host name [] sv wrong = refl
  after_logins-limiter host name ((tick, now, w) ∷ vs) sv wrong =
      after_logins-limiter host name vs (login lib casefold tick now host name w sv).1 wrong.1
      ∙ ap (fail_at (key_of host name) (map (λ (v : Visit). v.0) vs))
          (login-401 tick now host name w sv wrong.0)

  login_checked-throttled :
      (tick now : ℕ) (key name w : String) (sv : Server) (x : Option ℕ × LoginAttemptLimiter)
      (wait : ℕ)
      → x.0 ≡ some wait
      → ((login_checked lib tick now key name w sv x).0 ≡ too_many wait)
        × ((login_checked lib tick now key name w sv x).1.auth ≡ sv.auth)
  login_checked-throttled tick now key name w sv (none, l) wait e = cc
  login_checked-throttled tick now key name w sv (some n, l) wait e = (ground arith, refl)

  login-throttled :
      (tick now : ℕ) (host : Option String) (name w : String) (sv : Server) (wait : ℕ)
      → (retry_after tick (key_of host name) sv.limiter).0 ≡ some wait
      → ((login lib casefold tick now host name w sv).0 ≡ too_many wait)
        × ((login lib casefold tick now host name w sv).1.auth ≡ sv.auth)
  unfolding login
  login-throttled tick now host name w sv wait e =
      login_checked-throttled tick now (key_of host name) name w sv
        (retry_after tick (key_of host name) sv.limiter) wait e

  -- A client with no open window that logs in with one name, `max_failures` times or more, the
  -- first at `t0` and all within `window_seconds` of it, and is answered 401 each time: the login
  -- with that name from that client that comes next, before the window ends and with no other call
  -- on the server since the first, is answered 429 with the seconds that are left, whatever the
  -- password; and it leaves the accounts as they are.
  pub wrong_logins_lock :
      (host : Option String) (name w0 w : String) (t0 now0 tick now : ℕ) (vs : List Visit)
      (sv : Server)
      → IsValid sv.limiter
      → live_only t0 (lookup (key_of host name) sv.limiter.attempts) ≡ none
      → All (λ t. t < t0 + sv.limiter.window_seconds * 1_000_000) (map (λ (v : Visit). v.0) vs)
      → tick < t0 + sv.limiter.window_seconds * 1_000_000
      → sv.limiter.max_failures ≤ length (map (λ (v : Visit). v.0) vs) + 1
      → AllWrong host name ((t0, now0, w0) ∷ vs) sv
      → let sv' = after_logins host name ((t0, now0, w0) ∷ vs) sv in
        ((login lib casefold tick now host name w sv').0
          ≡ too_many (seconds_left (t0 + sv.limiter.window_seconds * 1_000_000) tick))
        × ((login lib casefold tick now host name w sv').1.auth ≡ sv'.auth)
  wrong_logins_lock host name w0 w t0 now0 tick now vs sv valid fresh within before enough wrong =
      let sv' = after_logins host name ((t0, now0, w0) ∷ vs) sv in
      let ts = map (λ (v : Visit). v.0) vs in
      let limited = after_logins-limiter host name ((t0, now0, w0) ∷ vs) sv wrong in
      let locked =
        lockout_exact (key_of host name) t0 tick ts sv.limiter valid fresh within before in
      login-throttled tick now host name w sv' _ (
        ap (λ (l : LoginAttemptLimiter). (retry_after tick (key_of host name) l).0) limited
        ∙ locked
        ∙ ground arith)

  login_checked-open :
      (tick now : ℕ) (key name w : String) (sv : Server) (x : Option ℕ × LoginAttemptLimiter)
      → x.0 ≡ none
      → login_checked lib tick now key name w sv x
        ≡ login_answer lib tick now key x.1 sv (authenticate lib now name w sv.auth)
  login_checked-open tick now key name w sv (none, l) e = refl
  login_checked-open tick now key name w sv (some n, l) e = cc

  enforce-lesser :
      (now : ℕ) (u : AuthUser) (s : AuthService)
      → (role_value u.role == "admin") ≡ false
      → get_user u.id s.users ≡ some u
      → (u.id == "") ≡ false
      → u.is_active ≡ true
      → is_token_revoked lib (new_access lib now u s) s ≡ false
      → 0 < s.config.access_token_expire_minutes
      → enforce_remote_admin_session lib now true (new_access lib now u s) (after_login lib now u s)
        ≡ (false, (revoke_user_sessions now u.id (after_login lib now u s)).1)
  unfolding enforce_remote_admin_session
  enforce-lesser now u s lesser here full active open_token lasts =
      rw (verify_token-own lib now now u s here full active open_token (omega arith) (omega arith))
        (rw lesser refl)

  -- The state after a login that the route closes again.
  abbrev closed : ℕ → AuthUser → LoginAttemptLimiter → Server → Server
  closed now u l sv = record sv {
    auth = (revoke_user_sessions now u.id (after_login lib now u sv.auth)).1;
    limiter = l;
  }

  login-closed :
      (tick now : ℕ) (host : Option String) (name w : String) (u : AuthUser) (sv : Server)
      → sv.remote_access_enabled ≡ true
      → (retry_after tick (key_of host name) sv.limiter).0 ≡ none
      → authenticate lib now name w sv.auth
        ≡ (returned (some (pair_of lib now u sv.auth)), after_login lib now u sv.auth)
      → enforce_remote_admin_session lib now true
          (new_access lib now u sv.auth)
          (after_login lib now u sv.auth)
        ≡ (false, (revoke_user_sessions now u.id (after_login lib now u sv.auth)).1)
      → login lib casefold tick now host name w sv
        ≡ (status 403, closed now u (retry_after tick (key_of host name) sv.limiter).1 sv)
  unfolding login
  login-closed tick now host name w u sv remote open_key known enforced =
      let l = (retry_after tick (key_of host name) sv.limiter).1 in
      let pair = pair_of lib now u sv.auth in
      login_checked-open tick now (key_of host name) name w sv
        (retry_after tick (key_of host name) sv.limiter) open_key
      ∙ ap (login_answer lib tick now (key_of host name) l sv) known
      ∙ ap
          (λ (remote : Bool). login_enforced lib (key_of host name) l pair sv (
            enforce_remote_admin_session lib now remote pair.access_token
              (after_login lib now u sv.auth)))
          remote
      ∙ ap (login_enforced lib (key_of host name) l pair sv) enforced

  -- With remote access enabled, a login of an active user who is no administrator is answered 403
  -- though name and password are right, and neither token of the session that it made is ever
  -- verified or refreshed, whatever is called afterwards. The conditions: the client is not locked
  -- out; the user is the row of that name and of that id, which is not empty; no refresh token has
  -- the hash of the new one, and the new access token's hash is not revoked; access tokens last at
  -- least a minute.
  pub remote_login_closed :
      (tick now later : ℕ) (host : Option String) (name w : String) (u : AuthUser) (sv : Server)
      (cs : List (ℕ × Call Token))
      → sv.remote_access_enabled ≡ true
      → (role_value u.role == "admin") ≡ false
      → (retry_after tick (key_of host name) sv.limiter).0 ≡ none
      → find_row (is_named name) sv.auth.users ≡ some u
      → get_user u.id sv.auth.users ≡ some u
      → (u.id == "") ≡ false
      → u.is_active ≡ true
      → lib.checkpw w u.password_hash ≡ true
      → any_of (has_hash (lib.hash_token (new_refresh lib now u sv.auth))) sv.auth.refresh_tokens
        ≡ false
      → is_token_revoked lib (new_access lib now u sv.auth) sv.auth ≡ false
      → 0 < sv.auth.config.access_token_expire_minutes
      → let x = login lib casefold tick now host name w sv in
        let s' = run lib cs x.1.auth in
        (x.0 ≡ status 403)
        × (verify_token lib later (new_access lib now u sv.auth) s' ≡ none)
        × (granted (refresh_access_token lib later (new_refresh lib now u sv.auth) s').0 ≡ false)
  remote_login_closed tick now later host name w u sv cs remote lesser open_key named here full
        active right fresh open_token lasts =
      let s = after_login lib now u sv.auth in
      let known = authenticate-some lib now name w u sv.auth named active right fresh in
      let enforced = enforce-lesser now u sv.auth lesser here full active open_token lasts in
      let ended = login-closed tick now host name w u sv remote open_key known enforced in
      let here' = get_user-edit u.id (stamp now) sv.auth.users u (λ v. refl) here in
      let gone =
        withdrawn_for_good lib now later u.token_version u.id logout (stamp now u)
          (access_payload sv.auth.config now (lib.uuid4 sv.auth.drawn) u) cs s here' full refl refl
          (omega arith) (logout_succeeds now u.id (stamp now u) s here') in
      let gone' =
        withdrawn_for_good lib now later u.token_version u.id logout (stamp now u)
          (refresh_payload sv.auth.config now (lib.uuid4 (sv.auth.drawn + 1)) u) cs s here' full
          refl refl (omega arith) (logout_succeeds now u.id (stamp now u) s here') in
      (ap (λ (x : Answer Token × Server). x.0) ended, rw ended gone.0, rw ended gone'.1)
