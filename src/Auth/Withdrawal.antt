-- ===== src/Auth/Withdrawal.antt =====
-- Withdrawing access: what becomes of a user's tokens after a logout, a new password, a new role or
-- a deactivation (services/auth.py of src/planagent), whatever is called afterwards.
use ming_jian.Base.{
  ℕ, ◌+◌, ◌≤◌, ◌<◌, not, String, ◌≡◌, refl, inl, inr, Bool, true, false, ◌&&◌, List, Option, none,
  some, arith, eqb, ◌==◌, Bool-cases,
}
use ming_jian.Base.Table.{count_rows}
use ming_jian.Auth.{AuthUser, Payload, AuthService, Crypto, UserRole, is_text}
use ming_jian.Auth.Tokens.{
  get_user, is_token_revoked, verify_token, required_access, required_refresh, of_type, is_current,
  refresh_access_token, rotate_payload, rotate_named, rotate, renew_for, consumable, spend,
}
use ming_jian.Auth.Users.{
  with_version, with_password, change_password, revoke_user_sessions, with_role, update_user_role,
  deactivate_user, same_role,
}
use ming_jian.Auth.Rotation.{granted}
use ming_jian.Auth.Change.{run-Changes}
use ming_jian.Auth.History.{Call, run}
use ming_jian.Auth.Barring.{
  Barred, Changes-Barred, Barred-is_current, Barred-match_payload, match-of_type, edited-Barred,
  succeeded,
}

-- The calls by which a user's access is withdrawn.
pub data Withdrawal : Type 0 where
  new_password : String → String → Withdrawal
  logout deactivation : Withdrawal
  new_role : UserRole → Withdrawal

-- Whether a role is to change.
abbrev pub changes_role : UserRole → Option AuthUser → Bool
changes_role r none = false
changes_role r (some u) = not (same_role u.role r)

module _ {Token : Type 0} (lib : Crypto Token) where
  -- The call, and whether it took effect.
  abbrev pub withdraw : ℕ → String → Withdrawal → AuthService → Bool × AuthService
  withdraw now i (new_password old new) s = change_password lib now i old new s
  withdraw now i logout s = revoke_user_sessions now i s
  withdraw now i deactivation s = deactivate_user i s
  withdraw now i (new_role r) s =
      (changes_role r (get_user i s.users), (update_user_role now i r s).1)

  withdraw-Barred :
      (now : ℕ) (i : String) (w : Withdrawal) (s : AuthService) (u : AuthUser)
      → get_user i s.users ≡ some u
      → (withdraw now i w s).0 ≡ true
      → Barred (u.token_version + 1) i (withdraw now i w s).1.users
  unfolding change_password with_password revoke_user_sessions deactivate_user update_user_role
      with_role
  withdraw-Barred now i (new_password old new) s u e took = rw e (
      succeeded (λ (t : AuthService). Barred (u.token_version + 1) i t.users)
        (u.is_active && lib.checkpw old u.password_hash) _ _
        (edited-Barred (u.token_version + 1) i _ s.users u (λ w. refl) e (inr (omega arith))) refl
        (rw e at took))
  withdraw-Barred now i logout s u e took = rw e (
      edited-Barred (u.token_version + 1) i with_version s.users u (λ w. refl) e
        (inr (omega arith)))
  withdraw-Barred now i deactivation s u e took =
      rw e (edited-Barred (u.token_version + 1) i _ s.users u (λ w. refl) e (inl refl))
  withdraw-Barred now i (new_role r) s u e took = elim (Bool-cases (same_role u.role r)) [
    | inl same ↦ cc (rw e at took, same)
    | inr other ↦ rw e (
        rw other
          (edited-Barred (u.token_version + 1) i _ s.users u (λ w. refl) e (inr (omega arith))))
  ]

  Barred-verify_token :
      (v n later : ℕ) (i : String) (p : Payload) (s : AuthService)
      → Barred v i s.users
      → p.sub ≡ some i
      → (i == "") ≡ false
      → p.ver ≡ some n
      → n < v
      → verify_token lib later (lib.encode p) s ≡ none
  unfolding verify_token
  Barred-verify_token v n later i p s b sub full e lt =
      elim (Bool-cases (is_token_revoked lib (lib.encode p) s)) [
        | inl yes_revoked ↦ rw yes_revoked
        | inr open_token ↦
            rw open_token (elim (lib.decode_encode required_access s.config.issuer later p) [
              | inl bad ↦ rw bad
              | inr good ↦ rw good (
                  match-of_type "access" s.users p
                    (Barred-match_payload v n i p s.users b sub full e lt))
            ])
      ]

  Barred-renew_for :
      (later n : ℕ) (s t : AuthService) (o : Option AuthUser)
      → is_current (some n) o ≡ false
      → granted (renew_for lib later (some n) s t o).0 ≡ false
  unfolding renew_for
  Barred-renew_for later n s t none e = refl
  Barred-renew_for later n s t (some u) e = rw e refl

  Barred-rotate :
      (v n later : ℕ) (i : String) (t : Token) (s : AuthService)
      → Barred v i s.users
      → n < v
      → granted (rotate lib later t i n s).0 ≡ false
  unfolding rotate
  Barred-rotate v n later i t s b lt =
      elim (Bool-cases
        (eqb (count_rows (consumable later (lib.hash_token t) i) s.refresh_tokens) 1)) [
          | inl e ↦ rw e (
              Barred-renew_for later n s (spend lib later t i s) (get_user i s.users)
                (Barred-is_current v n (get_user i s.users) b lt))
          | inr e ↦ rw e refl
        ]

  Barred-typed :
      (v n later : ℕ) (i : String) (p : Payload) (t : Token) (s : AuthService)
      → Barred v i s.users
      → p.sub ≡ some i
      → p.ver ≡ some n
      → n < v
      → granted (rotate_payload lib later t (of_type "refresh" (some p)) s).0 ≡ false
  unfolding rotate_payload rotate_named
  Barred-typed v n later i p t s b sub e lt = elim (Bool-cases (is_text p.token_type "refresh")) [
    | inl typed ↦
        rw typed
          (rw (sub, rotate_named) (rw (e, rotate_named) (Barred-rotate v n later i t s b lt)))
    | inr other ↦ rw other refl
  ]

  Barred-refresh :
      (v n later : ℕ) (i : String) (p : Payload) (s : AuthService)
      → Barred v i s.users
      → p.sub ≡ some i
      → p.ver ≡ some n
      → n < v
      → granted (refresh_access_token lib later (lib.encode p) s).0 ≡ false
  unfolding refresh_access_token rotate_payload
  Barred-refresh v n later i p s b sub e lt =
      elim (lib.decode_encode required_refresh s.config.issuer later p) [
        | inl bad ↦ rw (bad, rotate_payload) refl
        | inr good ↦ rw good (Barred-typed v n later i p (lib.encode p) s b sub e lt)
      ]

  -- When a new password, a logout, another role or a deactivation has taken effect for a user, no
  -- token of that user with the version of then or an older one is verified or refreshed any more,
  -- whatever is called afterwards. (An empty user id is no user.)
  pub withdrawn_for_good :
      (now later n : ℕ) (i : String) (w : Withdrawal) (u : AuthUser) (p : Payload)
      (cs : List (ℕ × Call Token)) (s : AuthService)
      → get_user i s.users ≡ some u
      → (i == "") ≡ false
      → p.sub ≡ some i
      → p.ver ≡ some n
      → n ≤ u.token_version
      → (withdraw now i w s).0 ≡ true
      → let s' = run lib cs (withdraw now i w s).1 in
        (verify_token lib later (lib.encode p) s' ≡ none)
        × (granted (refresh_access_token lib later (lib.encode p) s').0 ≡ false)
  withdrawn_for_good now later n i w u p cs s e full sub ver le took =
      let v = u.token_version + 1 in
      let s' = run lib cs (withdraw now i w s).1 in
      let b : Barred v i s'.users =
        Changes-Barred v i (run-Changes lib cs (withdraw now i w s).1)
          (withdraw-Barred now i w s u e took) in
      (
        Barred-verify_token v n later i p s' b sub full ver (omega arith),
        Barred-refresh v n later i p s' b sub ver (omega arith),
      )
