-- ===== src/Auth/Login.antt =====
-- From a login to a request: services/auth.py of src/planagent, `authenticate` with `verify_token`,
-- and `revoke_token` with `verify_token`.
use ming_jian.Base.{
  ℕ, ◌+◌, ◌*◌, ◌≤◌, ◌<◌, String, ◌≡◌, refl, ap, ◌∙◌, Bool, true, false, ◌&&◌, List, ◌∷◌, Option,
  none, some, arith, ◌==◌, eq_iff, any_of,
}
use ming_jian.Base.Table.{update_rows, find_row}
use ming_jian.Auth.{
  AuthConfig, AuthUser, AuthRevokedToken, AuthService, TokenPair, Reply, returned, Crypto,
  role_value,
}
use ming_jian.Auth.Tokens.{
  is_user, refresh_record, has_hash, get_user, add_revoked, is_revoked_hash, is_token_revoked,
  verify_token, required_access, access_payload, new_access, new_refresh, create_token_pair,
  revoke_token, match_payload, match_user,
}
use ming_jian.Auth.Users.{is_named, login_found, authenticate}
use ming_jian.Auth.Barring.{get_user-edit}
use ming_jian.Auth.Change.{
  Change, draw, join, edit, close, issue, deny, remember, Changes, none_yet, after, run-Changes,
}
use ming_jian.Auth.History.{Call, run}

abbrev denied : String → List AuthRevokedToken → Bool
denied h t = any_of (is_revoked_hash h) t

denied-add_revoked :
    (g h : String) (e : Option ℕ) (t : List AuthRevokedToken)
    → denied h t ≡ true
    → denied h (add_revoked g e t) ≡ true
unfolding add_revoked
denied-add_revoked g h e t d = ground arith

denied-add_revoked_self :
    (h : String) (e : Option ℕ) (t : List AuthRevokedToken) → denied h (add_revoked h e t) ≡ true
unfolding add_revoked
denied-add_revoked_self h e t = ground (arith, eq_iff h h)

Change-denied :
    {s t : AuthService} (h : String)
    → Change s t
    → denied h s.revoked_tokens ≡ true
    → denied h t.revoked_tokens ≡ true
Change-denied h (draw s n) d = d
Change-denied h (join s u) d = d
Change-denied h (edit s j f e) d = d
Change-denied h (close s p now) d = d
Change-denied h (issue s r e) d = d
Change-denied h (deny s g e) d = denied-add_revoked g h e s.revoked_tokens d
Change-denied h (remember s c) d = d

Changes-denied :
    {s t : AuthService} (h : String)
    → Changes s t
    → denied h s.revoked_tokens ≡ true
    → denied h t.revoked_tokens ≡ true
Changes-denied h none_yet d = d
Changes-denied h (after c e) d = Change-denied h e (Changes-denied h c d)

abbrev pub stamp : ℕ → AuthUser → AuthUser
stamp now u = record u { last_login = some now }

match_user_own :
    (c : AuthConfig) (now : ℕ) (j : String) (u v : AuthUser)
    → v.is_active ≡ true
    → v.token_version ≡ u.token_version
    → v.role ≡ u.role
    → match_user (access_payload c now j u) (some v) ≡ some (access_payload c now j u)
match_user_own c now j u v active same_version same_role =
    rw (active, same_version, same_role)
      (ground (arith, eq_iff (role_value u.role) (role_value u.role)))

module _ {Token : Type 0} (lib : Crypto Token) where
  -- A token that was revoked verifies never again, whatever is called afterwards.
  pub revoked_never_verified :
      (now later : ℕ) (t : Token) (cs : List (ℕ × Call Token)) (s : AuthService)
      → verify_token lib later t (run lib cs (revoke_token lib now t s)) ≡ none
  unfolding verify_token is_token_revoked revoke_token
  revoked_never_verified now later t cs s =
      let h = lib.hash_token t in
      let s' = revoke_token lib now t s in
      ground (
        arith,
        Changes-denied h (run-Changes lib cs s') (denied-add_revoked_self h _ s.revoked_tokens),
      )

  abbrev pub pair_of : ℕ → AuthUser → AuthService → TokenPair Token
  pair_of now u s = record {
    access_token = new_access lib now u s;
    refresh_token = new_refresh lib now u s;
    expires_in = s.config.access_token_expire_minutes * 60;
  }

  abbrev pub after_login : ℕ → AuthUser → AuthService → AuthService
  after_login now u s = record s {
    users = update_rows (is_user u.id) (stamp now) s.users;
    refresh_tokens =
        refresh_record s.config now (lib.hash_token (new_refresh lib now u s)) u ∷ s.refresh_tokens;
    drawn = s.drawn + 2;
  }

  pub login_found-some :
      (now : ℕ) (w : String) (u : AuthUser) (s : AuthService)
      → (u.is_active && lib.checkpw w u.password_hash) ≡ true
      → any_of (has_hash (lib.hash_token (new_refresh lib now u s))) s.refresh_tokens ≡ false
      → login_found lib now w s (some u) ≡ (returned (some (pair_of now u s)), after_login now u s)
  unfolding login_found create_token_pair
  login_found-some now w u s right fresh = rw right (rw fresh refl)

  match_payload-own :
      (now : ℕ) (u : AuthUser) (s : AuthService)
      → get_user u.id s.users ≡ some u
      → (u.id == "") ≡ false
      → u.is_active ≡ true
      → match_payload
          (after_login now u s).users
          (some (access_payload s.config now (lib.uuid4 s.drawn) u))
        ≡ some (access_payload s.config now (lib.uuid4 s.drawn) u)
  match_payload-own now u s here full active = rw full (
      rw (get_user-edit u.id (stamp now) s.users u (λ v. refl) here)
        (match_user_own s.config now (lib.uuid4 s.drawn) u (stamp now u) active refl refl))

  pub verify_token-own :
      (now later : ℕ) (u : AuthUser) (s : AuthService)
      → get_user u.id s.users ≡ some u
      → (u.id == "") ≡ false
      → u.is_active ≡ true
      → is_token_revoked lib (new_access lib now u s) s ≡ false
      → now ≤ later
      → later < now + s.config.access_token_expire_minutes * 60
      → verify_token lib later (new_access lib now u s) (after_login now u s)
        ≡ some (access_payload s.config now (lib.uuid4 s.drawn) u)
  unfolding verify_token is_token_revoked
  verify_token-own now later u s here full active open_token started ends =
      let p = access_payload s.config now (lib.uuid4 s.drawn) u in
      let read =
        lib.decode_live required_access s.config.issuer later now _ p refl refl refl refl started
          ends in
      rw open_token (rw read (match_payload-own now u s here full active))

  pub authenticate-some :
      (now : ℕ) (name w : String) (u : AuthUser) (s : AuthService)
      → find_row (is_named name) s.users ≡ some u
      → u.is_active ≡ true
      → lib.checkpw w u.password_hash ≡ true
      → any_of (has_hash (lib.hash_token (new_refresh lib now u s))) s.refresh_tokens ≡ false
      → authenticate lib now name w s ≡ (returned (some (pair_of now u s)), after_login now u s)
  unfolding authenticate
  authenticate-some now name w u s named active right fresh =
      ap (login_found lib now w s) named ∙ login_found-some now w u s (ground arith) fresh

  -- A login with the right name and password returns a pair whose access token verifies, to the
  -- claims with the user's id, role and version, until it expires. The conditions: the user is
  -- active and is the row of that name and of that id, which is not empty; no refresh token has the
  -- hash of the new one, and the new access token's hash is not revoked.
  pub login_verifies :
      (now later : ℕ) (name w : String) (u : AuthUser) (s : AuthService)
      → find_row (is_named name) s.users ≡ some u
      → get_user u.id s.users ≡ some u
      → (u.id == "") ≡ false
      → u.is_active ≡ true
      → lib.checkpw w u.password_hash ≡ true
      → any_of (has_hash (lib.hash_token (new_refresh lib now u s))) s.refresh_tokens ≡ false
      → is_token_revoked lib (new_access lib now u s) s ≡ false
      → now ≤ later
      → later < now + s.config.access_token_expire_minutes * 60
      → (pair : TokenPair Token) × ((authenticate lib now name w s).0 ≡ returned (some pair))
        × (verify_token lib later pair.access_token (authenticate lib now name w s).1
            ≡ some (access_payload s.config now (lib.uuid4 s.drawn) u))
  login_verifies now later name w u s named here full active right fresh open_token started ends =
      let found = authenticate-some now name w u s named active right fresh in
      (
        pair_of now u s,
        ap (λ (x : Reply (Option (TokenPair Token)) × AuthService). x.0) found,
        rw found (verify_token-own now later u s here full active open_token started ends),
      )
