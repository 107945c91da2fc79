-- ===== src/Auth/Tokens.antt =====
-- The token methods of `AuthService`: services/auth.py of src/planagent, from `refresh_access_token`
-- to `verify_token`, with the decoding helpers below the class.
use ming_jian.Base.{
  ℕ, ◌+◌, ◌*◌, String, Bool, false, ◌&&◌, ◌||◌, List, [], ◌∷◌, ◌++◌, Option, none, some, ltb, eqb,
  ◌==◌, if◌then◌else◌, is_none, any_of, length,
}
use ming_jian.Base.Table.{update_rows, count_rows, find_row}
use ming_jian.Auth.{
  role_value, AuthConfig, AuthUser, AuthRefreshToken, AuthRevokedToken, Payload, AuthService,
  TokenPair, duplicate_token, Reply, returned, raised, is_text, is_number, Crypto,
}

abbrev pub is_user : String → AuthUser → Bool
is_user i u = u.id == i

-- `get_user`: `session.get(AuthUser, user_id)`.
abbrev pub get_user : String → List AuthUser → Option AuthUser
get_user i users = find_row (is_user i) users

-- The row of `token_hash`, the table's primary key.
abbrev pub has_hash : String → AuthRefreshToken → Bool
has_hash h r = r.token_hash == h

abbrev pub is_revoked_hash : String → AuthRevokedToken → Bool
is_revoked_hash h r = r.token_hash == h

abbrev pub access_payload : AuthConfig → ℕ → String → AuthUser → Payload
access_payload c now j u = record {
  jti = some j;
  sub = some u.id;
  username = some u.username;
  email = some u.email;
  role = some (role_value u.role);
  ver = some u.token_version;
  token_type = some "access";
  iss = some c.issuer;
  iat = some now;
  exp = some (now + c.access_token_expire_minutes * 60);
}

abbrev pub refresh_payload : AuthConfig → ℕ → String → AuthUser → Payload
refresh_payload c now j u = record {
  jti = some j;
  sub = some u.id;
  username = none;
  email = none;
  role = none;
  ver = some u.token_version;
  token_type = some "refresh";
  iss = some c.issuer;
  iat = some now;
  exp = some (now + c.refresh_token_expire_days * 86400);
}

abbrev pub refresh_record : AuthConfig → ℕ → String → AuthUser → AuthRefreshToken
refresh_record c now h u = record {
  token_hash = h;
  user_id = u.id;
  issued_at = now;
  expires_at = now + c.refresh_token_expire_days * 86400;
  revoked_at = none;
}

abbrev pub revoke_row : ℕ → AuthRefreshToken → AuthRefreshToken
revoke_row now r = record r { revoked_at = some now }

-- The WHERE clause of the UPDATE that consumes a refresh token.
abbrev pub consumable : ℕ → String → String → AuthRefreshToken → Bool
consumable now h i r =
    has_hash h r && (r.user_id == i) && is_none r.revoked_at && ltb now r.expires_at

-- `if session.get(AuthRevokedToken, token_hash) is None: session.add(...)`
unfoldable pub add_revoked : String → Option ℕ → List AuthRevokedToken → List AuthRevokedToken
add_revoked h e t =
    if any_of (is_revoked_hash h) t then t else record { token_hash = h; expires_at = e } ∷ t

-- `while len(cache) > limit: cache.popitem(last=False)`
unfoldable pub drop_oldest : ℕ → List String → List String
drop_oldest limit [] = []
drop_oldest limit (h ∷ hs) =
    let rest = drop_oldest limit hs in if ltb limit (length (h ∷ hs)) then rest else h ∷ hs

unfoldable pub cache_hash : ℕ → String → List String → List String
unfolding drop_oldest
cache_hash limit h hs = drop_oldest limit (if any_of (λ g. g == h) hs then hs else hs ++ h ∷ [])

-- `user is None or not user.is_active or user.token_version != ver`
abbrev pub is_current : Option ℕ → Option AuthUser → Bool
is_current v none = false
is_current v (some u) = u.is_active && is_number v u.token_version

abbrev pub required_access : List String
required_access = "exp" ∷ "iat" ∷ "iss" ∷ "jti" ∷ "sub" ∷ "type" ∷ "ver" ∷ "role" ∷ []

abbrev pub required_refresh : List String
required_refresh = "exp" ∷ "iat" ∷ "iss" ∷ "jti" ∷ "sub" ∷ "type" ∷ "ver" ∷ []

-- The payload, if its type is this one.
abbrev pub of_type : String → Option Payload → Option Payload
of_type k none = none
of_type k (some p) = if is_text p.token_type k then some p else none

-- The checks of `verify_token` on a payload and the row of its user.
abbrev pub match_user : Payload → Option AuthUser → Option Payload
match_user p none = none
match_user p (some u) =
    if u.is_active && is_number p.ver u.token_version && is_text p.role (role_value u.role)
    then some p
    else none

-- `if user_id:`, where the empty text counts as absent.
abbrev pub match_subject : List AuthUser → Payload → Option String → Option Payload
match_subject users p none = some p
match_subject users p (some i) = if i == "" then some p else match_user p (get_user i users)

abbrev pub match_payload : List AuthUser → Option Payload → Option Payload
match_payload users none = none
match_payload users (some p) = match_subject users p p.sub

abbrev pub expiry : Option Payload → Option ℕ
expiry none = none
expiry (some p) = p.exp

-- The transaction of a refresh is rolled back when the new row is refused.
abbrev pub or_rolled_back :
    {Token : Type 0}
    → AuthService
    → Reply (TokenPair Token) × AuthService
    → Reply (Option (TokenPair Token)) × AuthService
or_rolled_back old (returned p, s) = (returned (some p), s)
or_rolled_back old (raised e, s) = (raised e, record old { drawn = s.drawn })

module _ {Token : Type 0} (lib : Crypto Token) where
  abbrev pub new_access : ℕ → AuthUser → AuthService → Token
  new_access now u s = lib.encode (access_payload s.config now (lib.uuid4 s.drawn) u)

  abbrev pub new_refresh : ℕ → AuthUser → AuthService → Token
  new_refresh now u s = lib.encode (refresh_payload s.config now (lib.uuid4 (s.drawn + 1)) u)

  -- `_create_token_pair`; a second row with one hash breaks the primary key.
  unfoldable pub create_token_pair :
      ℕ → AuthUser → AuthService → Reply (TokenPair Token) × AuthService
  create_token_pair now u s =
      let h = lib.hash_token (new_refresh now u s) in
      if any_of (has_hash h) s.refresh_tokens
      then (raised duplicate_token, record s { drawn = s.drawn + 2 })
      else (
        returned (record {
          access_token = new_access now u s;
          refresh_token = new_refresh now u s;
          expires_in = s.config.access_token_expire_minutes * 60;
        }),
        record s {
          refresh_tokens = refresh_record s.config now h u ∷ s.refresh_tokens;
          drawn = s.drawn + 2;
        },
      )

  -- `_is_token_revoked`
  unfoldable pub is_token_revoked : Token → AuthService → Bool
  is_token_revoked t s =
      any_of (λ h. h == lib.hash_token t) s.revoked_cache
      || any_of (is_revoked_hash (lib.hash_token t)) s.revoked_tokens

  -- `verify_token`
  unfoldable pub verify_token : ℕ → Token → AuthService → Option Payload
  unfolding is_token_revoked
  verify_token now t s =
      if is_token_revoked t s
      then none
      else match_payload s.users
          (of_type "access" (lib.decode required_access s.config.issuer now t))

  -- `_decode_refresh_token`
  abbrev pub decode_refresh_token : String → ℕ → Token → Option Payload
  decode_refresh_token issuer now t = of_type "refresh" (lib.decode required_refresh issuer now t)

  -- `_token_expires_at`
  abbrev pub token_expires_at : String → Token → Option ℕ
  token_expires_at issuer t = expiry (lib.decode_expired ("exp" ∷ "iss" ∷ []) issuer t)

  abbrev pub consume : ℕ → Token → String → AuthService → AuthService
  consume now t i s = record s {
    refresh_tokens =
        update_rows (consumable now (lib.hash_token t) i) (revoke_row now) s.refresh_tokens;
  }

  abbrev pub spend : ℕ → Token → String → AuthService → AuthService
  spend now t i s = record (consume now t i s) {
    revoked_tokens =
        add_revoked (lib.hash_token t) (token_expires_at s.config.issuer t) s.revoked_tokens;
  }

  -- The end of the transaction, on the row of the token's user.
  unfoldable pub renew_for :
      ℕ
      → Option ℕ
      → AuthService
      → AuthService
      → Option AuthUser
      → Reply (Option (TokenPair Token)) × AuthService
  unfolding create_token_pair
  renew_for now v old s none = (returned none, s)
  renew_for now v old s (some u) =
      if is_current v (some u)
      then or_rolled_back old (create_token_pair now u s)
      else (returned none, s)

  -- The transaction, for the user and the version that the token names.
  unfoldable pub rotate :
      ℕ → Token → String → ℕ → AuthService → Reply (Option (TokenPair Token)) × AuthService
  unfolding renew_for add_revoked
  rotate now t i v s =
      if eqb (count_rows (consumable now (lib.hash_token t) i) s.refresh_tokens) 1
      then renew_for now (some v) s (spend now t i s) (get_user i s.users)
      else (returned none, consume now t i s)

  unfoldable pub rotate_named :
      ℕ
      → Token
      → Option String
      → Option ℕ
      → AuthService
      → Reply (Option (TokenPair Token)) × AuthService
  unfolding rotate
  rotate_named now t (some i) (some v) s = rotate now t i v s
  rotate_named now t none v s = (returned none, s)
  rotate_named now t (some i) none s = (returned none, s)

  unfoldable pub rotate_payload :
      ℕ → Token → Option Payload → AuthService → Reply (Option (TokenPair Token)) × AuthService
  unfolding rotate_named
  rotate_payload now t none s = (returned none, s)
  rotate_payload now t (some p) s = rotate_named now t p.sub p.ver s

  -- `_refresh_persistent_access_token`
  unfoldable pub refresh_access_token :
      ℕ → Token → AuthService → Reply (Option (TokenPair Token)) × AuthService
  unfolding rotate_payload
  refresh_access_token now t s = rotate_payload now t (decode_refresh_token s.config.issuer now t) s

  -- `revoke_token`
  unfoldable pub revoke_token : ℕ → Token → AuthService → AuthService
  unfolding add_revoked cache_hash
  revoke_token now t s =
      let h = lib.hash_token t in
      record s {
        refresh_tokens = update_rows (has_hash h) (revoke_row now) s.refresh_tokens;
        revoked_tokens = add_revoked h (token_expires_at s.config.issuer t) s.revoked_tokens;
        revoked_cache = cache_hash s.max_revoked_tokens h s.revoked_cache;
      }
