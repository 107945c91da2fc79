-- ===== src/Auth/Sample.antt =====
-- An account service with one account, over tokens that are their own claims: data for the tests of
-- services/auth.py of src/planagent and of the routes that use it.
use ming_jian.Base.{
  ℕ, ◌≤◌, ◌<◌, String, ◌≡◌, refl, ap, ◌⊎◌, inl, inr, Bool, true, false, ◌&&◌, List, [], ◌∷◌, Option,
  none, some, arith, ltb, leb, eqb, ◌==◌, eq_iff, if◌then◌else◌,
}
use ming_jian.Auth.{
  analyst, is_text, AuthConfig, AuthUser, Payload, AuthService, has_claims, Crypto,
}
use ming_jian.Auth.Tokens.{new_refresh}

abbrev pub within : Option ℕ → Option ℕ → ℕ → Bool
within (some i) (some e) now = leb i now && ltb now e
within none e now = false
within (some i) none now = false

-- Tokens that are their own claims, and words for passwords.
abbrev pub plain_decode : List String → String → ℕ → Payload → Option Payload
plain_decode required issuer now p =
    if has_claims p required && (is_text p.iss issuer && within p.iat p.exp now)
    then some p
    else none

is_text-some : (o : Option String) (t : String) → is_text o t ≡ true → o ≡ some t
is_text-some none t e = cc
is_text-some (some s) t e = ap some ((eq_iff s t).0 e)

pub plain_decode_encode :
    (required : List String) (issuer : String) (now : ℕ) (p : Payload)
    → (plain_decode required issuer now p ≡ none) ⊎ (plain_decode required issuer now p ≡ some p)
plain_decode_encode required issuer now p =
    elim (has_claims p required && (is_text p.iss issuer && within p.iat p.exp now))
      as (λ b. ((if b then some p else none) ≡ none) ⊎ ((if b then some p else none) ≡ some p)) [
        | true ↦ inr refl
        | false ↦ inl refl
      ]

pub plain_decode_live :
    (required : List String) (issuer : String) (now issued end : ℕ) (p : Payload)
    → has_claims p required ≡ true
    → p.iss ≡ some issuer
    → p.iat ≡ some issued
    → p.exp ≡ some end
    → issued ≤ now
    → now < end
    → plain_decode required issuer now p ≡ some p
plain_decode_live required issuer now issued end p h k i e a b =
    ground (arith, eq_iff issuer issuer)

pub plain_decode_required :
    (required : List String) (issuer : String) (now : ℕ) (t p : Payload)
    → plain_decode required issuer now t ≡ some p
    → (has_claims p required ≡ true) × (p.iss ≡ some issuer)
plain_decode_required required issuer now t p e =
    (ground arith, is_text-some p.iss issuer (ground arith))

pub plain_checkpw_hashpw : (n : ℕ) (w : String) → (w == w) ≡ true
plain_checkpw_hashpw n w = ground (arith, eq_iff w w)

abbrev pub or_empty : Option String → String
or_empty none = ""
or_empty (some t) = t

abbrev pub numbered : ℕ → String
numbered n =
    if eqb n 0
    then "0"
    else if eqb n 1
    then "1"
    else if eqb n 2
    then "2"
    else if eqb n 3
    then "3"
    else if eqb n 4
    then "4"
    else if eqb n 5
    then "5"
    else "6"

abbrev pub plain : Crypto Payload
plain = record {
  encode = λ p. p;
  decode = plain_decode;
  decode_expired = λ required issuer p. if is_text p.iss issuer then some p else none;
  hash_token = λ p. or_empty p.jti;
  hashpw = λ n w. w;
  checkpw = λ w h. w == h;
  uuid4 = numbered;
  token_urlsafe = numbered;
  decode_encode = plain_decode_encode;
  decode_live = plain_decode_live;
  decode_required = plain_decode_required;
  checkpw_hashpw = plain_checkpw_hashpw;
}

abbrev pub settings : AuthConfig
settings = record {
  access_token_expire_minutes = 60;
  refresh_token_expire_days = 30;
  issuer = "planagent";
  default_admin_password = none;
}

abbrev pub fresh_service : AuthService
fresh_service = record {
  config = settings;
  users = [];
  refresh_tokens = [];
  revoked_tokens = [];
  revoked_cache = [];
  max_revoked_tokens = 100000;
  drawn = 0;
}

abbrev pub ann : AuthUser
ann = record {
  id = "1";
  username = "ann";
  email = "a@x";
  password_hash = "word";
  role = analyst;
  is_active = true;
  token_version = 0;
  last_login = none;
}

-- The service with one account.
abbrev pub with_ann : AuthService
with_ann = record fresh_service { users = ann ∷ []; drawn = 2 }

abbrev pub ann_logged_in : AuthUser
ann_logged_in = record ann { last_login = some 100 }

-- The first refresh token that Ann gets at second 100.
abbrev pub first_token : Payload
first_token = new_refresh plain 100 ann with_ann
