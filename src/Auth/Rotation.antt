-- ===== src/Auth/Rotation.antt =====
-- A refresh token is good for one refresh: how the rows of the refresh tokens
-- (services/auth.py of src/planagent) move under every call.
use ming_jian.Base.{
  ℕ, ◌+◌, ◌≤◌, String, ◌≡◌, refl, Bool, true, false, ◌&&◌, List, [], ◌∷◌, Option, none, some, arith,
  eqb, ◌==◌, eq_iff, if◌then◌else◌, Bool-cases, Option-cases, inl, inr,
}
use mathlib.Core.Path.{subst}
use ming_jian.Base.Table.{update_rows, count_rows}
use ming_jian.Auth.{
  AuthUser, AuthRefreshToken, AuthService, TokenPair, Reply, returned, raised, Crypto,
}
use ming_jian.Auth.Tokens.{
  has_hash, consumable, revoke_row, spend, renew_for, rotate, rotate_named, rotate_payload,
  refresh_access_token, decode_refresh_token, revoke_token, get_user, or_rolled_back, is_current,
}
use ming_jian.Auth.Change.{
  Change, draw, join, edit, close, issue, deny, remember, Changes, none_yet, after, step-Changes,
  create_token_pair-Changes,
}
use ming_jian.Auth.History.{
  Call, starts, registers, logs_in, refreshes, revokes, changes_password, ends_sessions, sets_role,
  deactivates, step,
}
use ming_jian.Auth.Rows.{
  issued, is_live, left, issued-update, left-update, left-insert, left-consume,
}

Change-left :
    {s t : AuthService} (h : String)
    → Change s t
    → left h t.refresh_tokens ≤ left h s.refresh_tokens
Change-left h (draw s n) = omega arith
Change-left h (join s u) = omega arith
Change-left h (edit s i f e) = omega arith
Change-left h (close s p now) = left-update p now h s.refresh_tokens
Change-left h (issue s r e) = left-insert h r s.refresh_tokens e
Change-left h (deny s g e) = omega arith
Change-left h (remember s c) = omega arith

pub Changes-left :
    {s t : AuthService} (h : String)
    → Changes s t
    → left h t.refresh_tokens ≤ left h s.refresh_tokens
Changes-left h none_yet = omega arith
Changes-left h (after c d) = omega (arith, Changes-left h c, Change-left h d)

-- Whether a refresh was granted.
abbrev pub granted {ℓ} : {A : Type ℓ} → Reply (Option A) → Bool
granted (returned none) = false
granted (returned (some p)) = true
granted (raised e) = false

module _ {Token : Type 0} (lib : Crypto Token) where
  -- Whether this call is a granted refresh of a token with the hash `h`.
  abbrev pub refreshed : String → ℕ × Call Token → AuthService → Bool
  refreshed h (now, refreshes t) s =
      (lib.hash_token t == h) && granted (refresh_access_token lib now t s).0
  refreshed h (now, starts) s = false
  refreshed h (now, registers name mail w r) s = false
  refreshed h (now, logs_in name w) s = false
  refreshed h (now, revokes t) s = false
  refreshed h (now, changes_password i old new) s = false
  refreshed h (now, ends_sessions i) s = false
  refreshed h (now, sets_role i r) s = false
  refreshed h (now, deactivates i) s = false

  -- How many refreshes of a token are granted over a history.
  unfoldable pub refreshes_of : String → List (ℕ × Call Token) → AuthService → ℕ
  refreshes_of h [] s = 0
  refreshes_of h (c ∷ cs) s =
      let rest = refreshes_of h cs (step lib c s) in (if refreshed h c s then 1 else 0) + rest

  rolled_left :
      (h : String) (s t : AuthService) (x : Reply (TokenPair Token) × AuthService)
      → 1 + left h t.refresh_tokens ≤ left h s.refresh_tokens
      → left h x.1.refresh_tokens ≤ left h t.refresh_tokens
      → (if granted (or_rolled_back s x).0 then 1 else 0)
          + left h (or_rolled_back s x).1.refresh_tokens
        ≤ left h s.refresh_tokens
  rolled_left h s t (returned p, u) a b = omega arith
  rolled_left h s t (raised e, u) a b = omega arith

  renew_for-left :
      (now : ℕ) (h : String) (v : Option ℕ) (s t : AuthService) (o : Option AuthUser)
      → 1 + left h t.refresh_tokens ≤ left h s.refresh_tokens
      → let x = renew_for lib now v s t o in
        (if granted x.0 then 1 else 0) + left h x.1.refresh_tokens ≤ left h s.refresh_tokens
  unfolding renew_for
  renew_for-left now h v s t none a = omega arith
  renew_for-left now h v s t (some u) a = elim (Bool-cases (is_current v (some u))) [
    | inl e ↦ rw e (rolled_left h s t _ a (Changes-left h (create_token_pair-Changes lib now u t)))
    | inr e ↦ rw e (omega arith)
  ]

  rotate-left :
      (now : ℕ) (t : Token) (i : String) (v : ℕ) (s : AuthService)
      → let x = rotate lib now t i v s in
        (if granted x.0 then 1 else 0) + left (lib.hash_token t) x.1.refresh_tokens
        ≤ left (lib.hash_token t) s.refresh_tokens
  unfolding rotate
  rotate-left now t i v s =
      let h = lib.hash_token t in
      elim (Bool-cases (eqb (count_rows (consumable now h i) s.refresh_tokens) 1)) [
        | inl e ↦ rw e (
            renew_for-left now h (some v) s (spend lib now t i s) (get_user i s.users)
              (left-consume now h i s.refresh_tokens (ground arith)))
        | inr e ↦ rw e (omega (arith, left-update (consumable now h i) now h s.refresh_tokens))
      ]

  rotate_named-left :
      (now : ℕ) (t : Token) (i : Option String) (v : Option ℕ) (s : AuthService)
      → let x = rotate_named lib now t i v s in
        (if granted x.0 then 1 else 0) + left (lib.hash_token t) x.1.refresh_tokens
        ≤ left (lib.hash_token t) s.refresh_tokens
  unfolding rotate_named
  rotate_named-left now t none v s = omega arith
  rotate_named-left now t (some i) none s = omega arith
  rotate_named-left now t (some i) (some v) s = rotate-left now t i v s

  refresh-left :
      (now : ℕ) (t : Token) (s : AuthService)
      → let x = refresh_access_token lib now t s in
        (if granted x.0 then 1 else 0) + left (lib.hash_token t) x.1.refresh_tokens
        ≤ left (lib.hash_token t) s.refresh_tokens
  unfolding refresh_access_token rotate_payload
  refresh-left now t s = elim (Option-cases (decode_refresh_token lib s.config.issuer now t)) [
    | inl e ↦ rw e (omega arith)
    | inr (p, e) ↦ rw e (rotate_named-left now t p.sub p.ver s)
  ]

  quiet_left :
      (h : String) (c : ℕ × Call Token) (s : AuthService)
      → refreshed h c s ≡ false
      → (if refreshed h c s then 1 else 0) + left h (step lib c s).refresh_tokens
        ≤ left h s.refresh_tokens
  quiet_left h c s e = rw e (omega (arith, Changes-left h (step-Changes lib c s)))

  refreshes_left :
      (h : String) (now : ℕ) (t : Token) (s : AuthService)
      → (lib.hash_token t == h) ≡ true
      → (if refreshed h (now, refreshes t) s then 1 else 0)
          + left h (step lib (now, refreshes t) s).refresh_tokens
        ≤ left h s.refresh_tokens
  unfolding step
  refreshes_left h now t s e =
      subst
        (λ g.
          (if (lib.hash_token t == g) && granted (refresh_access_token lib now t s).0 then 1 else 0)
            + left g (refresh_access_token lib now t s).1.refresh_tokens
          ≤ left g s.refresh_tokens)
        ((eq_iff (lib.hash_token t) h).0 e) (ground (arith, refresh-left now t s))

  step-left :
      (h : String) (c : ℕ × Call Token) (s : AuthService)
      → (if refreshed h c s then 1 else 0) + left h (step lib c s).refresh_tokens
        ≤ left h s.refresh_tokens
  step-left h (now, refreshes t) s = elim (Bool-cases (lib.hash_token t == h)) [
    | inl e ↦ refreshes_left h now t s e
    | inr e ↦ quiet_left h (now, refreshes t) s (ground arith)
  ]
  step-left h (now, starts) s = quiet_left h (now, starts) s refl
  step-left h (now, registers name mail w r) s = quiet_left h (now, registers name mail w r) s refl
  step-left h (now, logs_in name w) s = quiet_left h (now, logs_in name w) s refl
  step-left h (now, revokes t) s = quiet_left h (now, revokes t) s refl
  step-left h (now, changes_password i old new) s =
      quiet_left h (now, changes_password i old new) s refl
  step-left h (now, ends_sessions i) s = quiet_left h (now, ends_sessions i) s refl
  step-left h (now, sets_role i r) s = quiet_left h (now, sets_role i r) s refl
  step-left h (now, deactivates i) s = quiet_left h (now, deactivates i) s refl

  refreshes_of-le-left :
      (h : String) (cs : List (ℕ × Call Token)) (s : AuthService)
      → refreshes_of h cs s ≤ left h s.refresh_tokens
  unfolding refreshes_of
  refreshes_of-le-left h [] s = omega arith
  refreshes_of-le-left h (c ∷ cs) s =
      omega (arith, step-left h c s, refreshes_of-le-left h cs (step lib c s))

  -- In every history of calls on a service that starts with no refresh token, a token is refreshed
  -- at most once.
  pub refreshed_once :
      (t : Token) (cs : List (ℕ × Call Token)) (s : AuthService)
      → s.refresh_tokens ≡ []
      → refreshes_of (lib.hash_token t) cs s ≤ 1
  unfolding left
  refreshed_once t cs s e = let bound = refreshes_of-le-left (lib.hash_token t) cs s in ground arith

  revoke-live :
      (now : ℕ) (h : String) (t : List AuthRefreshToken)
      → count_rows (is_live h) (update_rows (has_hash h) (revoke_row now) t) ≡ 0
  revoke-live now h [] = refl
  revoke-live now h (r ∷ t) = ground (arith, revoke-live now h t)

  -- After `revoke_token` on a refresh token that was handed out, no later call refreshes it.
  revoked_never_refreshed :
      (now : ℕ) (t : Token) (cs : List (ℕ × Call Token)) (s : AuthService)
      → issued (lib.hash_token t) s.refresh_tokens ≡ true
      → refreshes_of (lib.hash_token t) cs (revoke_token lib now t s) ≡ 0
  unfolding left revoke_token
  revoked_never_refreshed now t cs s e =
      let h = lib.hash_token t in
      let bound = refreshes_of-le-left h cs (revoke_token lib now t s) in
      ground (
        arith,
        revoke-live now h s.refresh_tokens,
        issued-update (has_hash h) now h s.refresh_tokens,
      )
