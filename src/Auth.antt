-- ===== src/Auth.antt =====
-- Accounts and tokens: services/auth.py of src/planagent, on the database path (`_db_enabled`).
-- Times are whole seconds, handed to the methods; a method is one step. Tokens, hashes, salts and
-- random texts come from PyJWT, hashlib, bcrypt, uuid and secrets: the record `Crypto`.
pub mod Tokens
pub mod Users
pub mod History
pub mod Change
pub mod Rows
pub mod Rotation
pub mod Barring
pub mod Withdrawal
pub mod Login
pub mod Sample
mod Tests
use ming_jian.Base.{
  ℕ, ◌≤◌, ◌<◌, String, ◌≡◌, ◌⊎◌, Bool, true, false, ◌&&◌, List, [], ◌∷◌, Option, none, some, eqb,
  ◌==◌, if◌then◌else◌, is_some,
}

pub data UserRole : Type 0 where
  admin analyst viewer : UserRole

abbrev pub role_value : UserRole → String
role_value admin = "admin"
role_value analyst = "analyst"
role_value viewer = "viewer"

pub record AuthConfig : Type 0 where
  pub access_token_expire_minutes : ℕ
  pub refresh_token_expire_days : ℕ
  pub issuer : String
  pub default_admin_password : Option String

pub record AuthUser : Type 0 where
  pub id : String
  pub username : String
  pub email : String
  pub password_hash : String
  pub role : UserRole
  pub is_active : Bool
  pub token_version : ℕ
  pub last_login : Option ℕ

pub record AuthRefreshToken : Type 0 where
  pub token_hash : String
  pub user_id : String
  pub issued_at : ℕ
  pub expires_at : ℕ
  pub revoked_at : Option ℕ

pub record AuthRevokedToken : Type 0 where
  pub token_hash : String
  pub expires_at : Option ℕ

-- The claims of a token, `none` where the dict has no such key (or a value of another type).
pub record Payload : Type 0 where
  pub jti : Option String
  pub sub : Option String
  pub username : Option String
  pub email : Option String
  pub role : Option String
  pub ver : Option ℕ
  pub token_type : Option String
  pub iss : Option String
  pub iat : Option ℕ
  pub exp : Option ℕ

-- The tables, the set of revoked hashes in memory (oldest first) with its limit, and how many
-- random values have been drawn.
pub record AuthService : Type 0 where
  pub config : AuthConfig
  pub users : List AuthUser
  pub refresh_tokens : List AuthRefreshToken
  pub revoked_tokens : List AuthRevokedToken
  pub revoked_cache : List String
  pub max_revoked_tokens : ℕ
  pub drawn : ℕ

pub record TokenPair (Token : Type 0) : Type 0 where
  pub access_token : Token
  pub refresh_token : Token
  pub expires_in : ℕ

pub data AuthError : Type 0 where
  username_taken email_taken multiple_found duplicate_token : AuthError

-- What a method returns or raises.
pub data Reply {ℓ} (A : Type ℓ) : Type ℓ where
  returned : A → Reply A
  raised : AuthError → Reply A

-- `payload.get(key) == text`, and the same for a number.
abbrev pub is_text : Option String → String → Bool
is_text none t = false
is_text (some s) t = s == t

abbrev pub is_number : Option ℕ → ℕ → Bool
is_number none n = false
is_number (some m) n = eqb m n

-- Whether a payload has the claim of this name.
abbrev pub has_claim : Payload → String → Bool
has_claim p k =
    if k == "exp"
    then is_some p.exp
    else if k == "iat"
    then is_some p.iat
    else if k == "iss"
    then is_some p.iss
    else if k == "jti"
    then is_some p.jti
    else if k == "sub"
    then is_some p.sub
    else if k == "type"
    then is_some p.token_type
    else if k == "ver"
    then is_some p.ver
    else if k == "role"
    then is_some p.role
    else false

abbrev pub has_claims : Payload → List String → Bool
has_claims p [] = true
has_claims p (k ∷ ks) = if has_claim p k then has_claims p ks else false

-- The third-party calls, for the service's key and algorithm. `decode required issuer now` is
-- `jwt.decode` with that issuer, with `none` for InvalidTokenError; `decode_expired` has `verify_exp`
-- off. The n-th random value drawn is a salt, a uuid or a password of n.
pub record Crypto (Token : Type 0) : Type 0 where
  pub encode : Payload → Token
  pub decode : List String → String → ℕ → Token → Option Payload
  pub decode_expired : List String → String → Token → Option Payload
  pub hash_token : Token → String
  pub hashpw : ℕ → String → String
  pub checkpw : String → String → Bool
  pub uuid4 : ℕ → String
  pub token_urlsafe : ℕ → String
  -- A token decodes to the claims that were encoded, or is refused.
  pub decode_encode :
      (required : List String) (issuer : String) (now : ℕ) (p : Payload)
      → (decode required issuer now (encode p) ≡ none)
        ⊎ (decode required issuer now (encode p) ≡ some p)
  -- It is not refused while it lasts, if it has the claims that are required and is of the issuer.
  pub decode_live :
      (required : List String) (issuer : String) (now issued end : ℕ) (p : Payload)
      → has_claims p required ≡ true
      → p.iss ≡ some issuer
      → p.iat ≡ some issued
      → p.exp ≡ some end
      → issued ≤ now
      → now < end
      → decode required issuer now (encode p) ≡ some p
  -- It has the claims that were required, and is of the issuer.
  pub decode_required :
      (required : List String) (issuer : String) (now : ℕ) (t : Token) (p : Payload)
      → decode required issuer now t ≡ some p
      → (has_claims p required ≡ true) × (p.iss ≡ some issuer)
  pub checkpw_hashpw : (n : ℕ) (w : String) → checkpw w (hashpw n w) ≡ true
