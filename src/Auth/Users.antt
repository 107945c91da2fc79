-- ===== src/Auth/Users.antt =====
-- The account methods of `AuthService`: services/auth.py of src/planagent, `_ensure_default_admin`
-- to `revoke_user_sessions`, `update_user_role`, `deactivate_user` and `check_role`.
use ming_jian.Base.{
  ℕ, ◌+◌, String, Bool, true, false, ◌&&◌, ◌||◌, List, [], ◌∷◌, ◌++◌, Option, none, some, leb, ◌==◌,
  if◌then◌else◌, is_none, any_of, keep_if,
}
use ming_jian.Base.Table.{update_rows, find_row}
use ming_jian.Auth.{
  UserRole, admin, analyst, viewer, role_value, AuthUser, AuthRefreshToken, Payload, AuthService,
  TokenPair, username_taken, email_taken, multiple_found, Reply, returned, raised, Crypto,
}
use ming_jian.Auth.Tokens.{is_user, get_user, revoke_row, create_token_pair}

-- The row that registration looks for.
abbrev pub is_like : String → String → AuthUser → Bool
is_like name mail u = (u.username == name) || (u.email == mail)

abbrev pub is_named : String → AuthUser → Bool
is_named name u = u.username == name

-- The rows of a user that `revoked_at IS NULL`.
abbrev pub open_row : String → AuthRefreshToken → Bool
open_row i r = (r.user_id == i) && is_none r.revoked_at

abbrev pub close_rows : ℕ → String → List AuthRefreshToken → List AuthRefreshToken
close_rows now i t = update_rows (open_row i) (revoke_row now) t

abbrev pub put_user : String → (AuthUser → AuthUser) → AuthService → AuthService
put_user i f s = record s { users = update_rows (is_user i) f s.users }

abbrev pub with_version : AuthUser → AuthUser
with_version u = record u { token_version = u.token_version + 1 }

abbrev pub is_admin : AuthUser → Bool
is_admin u = role_value u.role == "admin"

abbrev pub same_role : UserRole → UserRole → Bool
same_role a b = role_value a == role_value b

-- `revoke_user_sessions`
unfoldable pub revoke_user_sessions : ℕ → String → AuthService → Bool × AuthService
revoke_user_sessions now i s = if is_none (get_user i s.users) then (false, s) else (
  true,
  record (put_user i with_version s) { refresh_tokens = close_rows now i s.refresh_tokens },
)

unfoldable pub with_role :
    ℕ → String → UserRole → AuthService → Option AuthUser → Option AuthUser × AuthService
with_role now i r s none = (none, s)
with_role now i r s (some u) =
    let u' = record (with_version u) { role = r } in
    if same_role u.role r then (some u, s) else (
      some u',
      record (put_user i (λ w. record (with_version w) { role = r }) s) {
        refresh_tokens = close_rows now i s.refresh_tokens;
      },
    )

-- `update_user_role`
unfoldable pub update_user_role :
    ℕ → String → UserRole → AuthService → Option AuthUser × AuthService
unfolding with_role
update_user_role now i r s = with_role now i r s (get_user i s.users)

-- `deactivate_user`
unfoldable pub deactivate_user : String → AuthService → Bool × AuthService
deactivate_user i s =
    if is_none (get_user i s.users)
    then (false, s)
    else (true, put_user i (λ u. record u { is_active = false }) s)

abbrev pub rank : UserRole → ℕ
rank viewer = 0
rank analyst = 1
rank admin = 2

-- `UserRole(text)`: `none` is the ValueError.
abbrev pub parse_role : String → Option UserRole
parse_role t =
    if t == "admin"
    then some admin
    else if t == "analyst"
    then some analyst
    else if t == "viewer"
    then some viewer
    else none

abbrev pub outranks : UserRole → Option UserRole → Option Bool
outranks needed none = none
outranks needed (some r) = some (leb (rank needed) (rank r))

abbrev pub role_claim : Option String → String
role_claim none = "viewer"
role_claim (some t) = t

-- `check_role`: `none` is the ValueError.
unfoldable pub check_role : Payload → UserRole → Option Bool
check_role p needed = outranks needed (parse_role (role_claim p.role))

-- A configured password that is not empty.
abbrev pub configured : Option String → Option String
configured none = none
configured (some w) = if w == "" then none else some w

module _ {Token : Type 0} (lib : Crypto Token) where
  abbrev pub new_user : String → String → String → UserRole → AuthService → AuthUser
  new_user name mail w r s = record {
    id = lib.uuid4 (s.drawn + 1);
    username = name;
    email = mail;
    password_hash = lib.hashpw s.drawn w;
    role = r;
    is_active = true;
    token_version = 0;
    last_login = none;
  }

  unfoldable pub add_user :
      String
      → String
      → String
      → UserRole
      → AuthService
      → List AuthUser
      → Reply AuthUser × AuthService
  add_user name mail w r s [] =
      let u = new_user name mail w r s in
      (returned u, record s { users = s.users ++ u ∷ []; drawn = s.drawn + 2 })
  add_user name mail w r s (u ∷ []) =
      if u.username == name then (raised username_taken, s) else (raised email_taken, s)
  add_user name mail w r s (u ∷ v ∷ us) = (raised multiple_found, s)

  -- `create_user`, with `scalar_one_or_none` on the rows of that name or address.
  unfoldable pub create_user :
      String → String → String → UserRole → AuthService → Reply AuthUser × AuthService
  unfolding add_user
  create_user name mail w r s = add_user name mail w r s (keep_if (is_like name mail) s.users)

  abbrev pub some_pair :
      Reply (TokenPair Token) × AuthService → Reply (Option (TokenPair Token)) × AuthService
  some_pair (returned p, s) = (returned (some p), s)
  some_pair (raised e, s) = (raised e, s)

  unfoldable pub login_found :
      ℕ → String → AuthService → Option AuthUser → Reply (Option (TokenPair Token)) × AuthService
  unfolding create_token_pair
  login_found now w s none = (returned none, s)
  login_found now w s (some u) =
      let s' = put_user u.id (λ v. record v { last_login = some now }) s in
      if u.is_active && lib.checkpw w u.password_hash
      then some_pair (create_token_pair lib now u s')
      else (returned none, s)

  -- `authenticate`
  unfoldable pub authenticate :
      ℕ → String → String → AuthService → Reply (Option (TokenPair Token)) × AuthService
  unfolding login_found
  authenticate now name w s = login_found now w s (find_row (is_named name) s.users)

  unfoldable pub with_password :
      ℕ → String → String → String → AuthService → Option AuthUser → Bool × AuthService
  with_password now i old new s none = (false, s)
  with_password now i old new s (some u) =
      let h = lib.hashpw s.drawn new in
      if u.is_active && lib.checkpw old u.password_hash
      then (
        true,
        record (put_user i (λ v. record (with_version v) { password_hash = h }) s) {
          refresh_tokens = close_rows now i s.refresh_tokens;
          drawn = s.drawn + 1;
        },
      )
      else (false, s)

  -- `change_password`
  unfoldable pub change_password : ℕ → String → String → String → AuthService → Bool × AuthService
  unfolding with_password
  change_password now i old new s = with_password now i old new s (get_user i s.users)

  abbrev pub without_reply : Reply AuthUser × AuthService → Reply (Unit {0}) × AuthService
  without_reply (returned u, s) = (returned tt, s)
  without_reply (raised e, s) = (raised e, s)

  -- A found default administrator who never logged in gets the configured password.
  unfoldable pub claim_default :
      AuthService → AuthUser → Option String → Reply (Unit {0}) × AuthService
  claim_default s u none = (returned tt, s)
  claim_default s u (some w) =
      let h = lib.hashpw s.drawn w in
      if is_none u.last_login
      then (
        returned tt,
        record (put_user u.id (λ v. record v { password_hash = h }) s) { drawn = s.drawn + 1 },
      )
      else (returned tt, s)

  unfoldable pub first_admin : AuthService → Option String → Reply (Unit {0}) × AuthService
  unfolding create_user
  first_admin s none =
      let s' = record s { drawn = s.drawn + 1 } in
      if any_of (λ u. true) s.users
      then (returned tt, s)
      else without_reply
          (create_user "admin" "admin@planagent.local" (lib.token_urlsafe s.drawn) admin s')
  first_admin s (some w) = without_reply (create_user "admin" "admin@planagent.local" w admin s)

  unfoldable pub default_admin : AuthService → Option AuthUser → Reply (Unit {0}) × AuthService
  unfolding claim_default first_admin
  default_admin s (some u) = claim_default s u (configured s.config.default_admin_password)
  default_admin s none =
      if any_of is_admin s.users
      then (returned tt, s)
      else first_admin s (configured s.config.default_admin_password)

  -- `_ensure_default_admin`
  unfoldable pub ensure_default_admin : AuthService → Reply (Unit {0}) × AuthService
  unfolding default_admin
  ensure_default_admin s =
      default_admin s
        (find_row (λ u. (u.username == "admin") && (u.email == "admin@planagent.local")) s.users)
