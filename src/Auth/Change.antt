-- ===== src/Auth/Change.antt =====
-- Every call on `AuthService` (services/auth.py of src/planagent) as a chain of small changes of the
-- tables, so that a property is proved once for each change.
use ming_jian.Base.{
  ℕ, ◌+◌, ◌≤◌, String, ◌≡◌, refl, ◌∙◌, Bool, true, false, ◌&&◌, List, [], ◌∷◌, ◌++◌, Option, none,
  some, arith, eqb, ◌==◌, if◌then◌else◌, is_none, any_of, keep_if, Bool-cases, inl, inr,
}
use ming_jian.Base.Table.{update_rows, count_rows, find_row}
use ming_jian.Auth.{
  UserRole, admin, AuthUser, AuthRefreshToken, Payload, AuthService, TokenPair, Reply, returned,
  raised, Crypto,
}
use ming_jian.Auth.Tokens.{
  has_hash, consumable, revoke_row, create_token_pair, spend, renew_for, rotate, rotate_named,
  rotate_payload, refresh_access_token, decode_refresh_token, revoke_token, get_user,
  refresh_record, new_refresh, or_rolled_back, is_current, add_revoked,
}
use ming_jian.Auth.Users.{
  is_like, is_named, is_admin, put_user, add_user, create_user, login_found, authenticate,
  with_password, change_password, revoke_user_sessions, with_role, update_user_role,
  deactivate_user, claim_default, first_admin, default_admin, ensure_default_admin, same_role,
  some_pair, without_reply, configured,
}
use ming_jian.Auth.History.{
  Call, starts, registers, logs_in, refreshes, revokes, changes_password, ends_sessions, sets_role,
  deactivates, step, run,
}

-- A write to a user's row that keeps its id, never lowers its version and never activates it.
pub record Edits (f : AuthUser → AuthUser) : Type 0 where
  pub same_id : (u : AuthUser) → (f u).id ≡ u.id
  pub newer : (u : AuthUser) → u.token_version ≤ (f u).token_version
  pub stays_out : (u : AuthUser) → u.is_active ≡ false → (f u).is_active ≡ false

pub data Change : AuthService → AuthService → Type 0 where
  draw : (s : AuthService) (n : ℕ) → Change s (record s { drawn = n })
  join : (s : AuthService) (u : AuthUser) → Change s (record s { users = s.users ++ u ∷ [] })
  edit :
      (s : AuthService) (i : String) (f : AuthUser → AuthUser) → Edits f → Change s (put_user i f s)
  close :
      (s : AuthService) (p : AuthRefreshToken → Bool) (now : ℕ)
      → Change s (record s { refresh_tokens = update_rows p (revoke_row now) s.refresh_tokens })
  issue :
      (s : AuthService) (r : AuthRefreshToken)
      → any_of (has_hash r.token_hash) s.refresh_tokens ≡ false
      → Change s (record s { refresh_tokens = r ∷ s.refresh_tokens })
  deny :
      (s : AuthService) (h : String) (e : Option ℕ)
      → Change s (record s { revoked_tokens = add_revoked h e s.revoked_tokens })
  remember : (s : AuthService) (c : List String) → Change s (record s { revoked_cache = c })

pub data Changes (s : AuthService) : AuthService → Type 0 where
  none_yet : Changes s s
  after : {t u : AuthService} → Changes s t → Change t u → Changes s u

abbrev once : {s t : AuthService} → Change s t → Changes s t
once c = after none_yet c

pub Changes-trans : {s t u : AuthService} → Changes s t → Changes t u → Changes s u
Changes-trans a none_yet = a
Changes-trans a (after b c) = after (Changes-trans a b) c

Changes-if {ℓ} :
    {A : Type ℓ} (s : AuthService) (b : Bool) (x y : A × AuthService)
    → Changes s x.1
    → Changes s y.1
    → Changes s (if b then x else y).1
Changes-if s true x y p q = p
Changes-if s false x y p q = q

-- The writes of the methods.
edit_plain :
    (f : AuthUser → AuthUser)
    → ((u : AuthUser) → (f u).id ≡ u.id)
    → ((u : AuthUser) → (f u).is_active ≡ u.is_active)
    → ((u : AuthUser) → u.token_version ≤ (f u).token_version)
    → Edits f
edit_plain f i a v = record { same_id = i; newer = v; stays_out = λ u out. a u ∙ out }

with_role-Changes :
    (now : ℕ) (i : String) (r : UserRole) (s : AuthService) (o : Option AuthUser)
    → Changes s (with_role now i r s o).1
unfolding with_role
with_role-Changes now i r s none = none_yet
with_role-Changes now i r s (some u) = Changes-if s (same_role u.role r) _ _ none_yet (
    after (once (edit s i _ (edit_plain _ (λ v. refl) (λ v. refl) (λ v. omega arith))))
      (close _ _ now))

module _ {Token : Type 0} (lib : Crypto Token) where
  pub create_token_pair-Changes :
      (now : ℕ) (u : AuthUser) (s : AuthService) → Changes s (create_token_pair lib now u s).1
  unfolding create_token_pair
  create_token_pair-Changes now u s =
      elim (Bool-cases
        (any_of (has_hash (lib.hash_token (new_refresh lib now u s))) s.refresh_tokens)) [
          | inl e ↦ rw e (once (draw s (s.drawn + 2)))
          | inr e ↦ rw e (
              after
                (once (
                  issue s (refresh_record s.config now (lib.hash_token (new_refresh lib now u s)) u)
                    e))
                (draw _ (s.drawn + 2)))
        ]

  add_user-Changes :
      (name mail w : String) (r : UserRole) (s : AuthService) (found : List AuthUser)
      → Changes s (add_user lib name mail w r s found).1
  unfolding add_user
  add_user-Changes name mail w r s [] = after (once (join s _)) (draw _ (s.drawn + 2))
  add_user-Changes name mail w r s (u ∷ []) =
      Changes-if s (u.username == name) _ _ none_yet none_yet
  add_user-Changes name mail w r s (u ∷ v ∷ us) = none_yet

  create_user-Changes :
      (name mail w : String) (r : UserRole) (s : AuthService)
      → Changes s (create_user lib name mail w r s).1
  unfolding create_user
  create_user-Changes name mail w r s =
      add_user-Changes name mail w r s (keep_if (is_like name mail) s.users)

  without_reply-Changes :
      (s : AuthService) (x : Reply AuthUser × AuthService)
      → Changes s x.1
      → Changes s (without_reply lib x).1
  without_reply-Changes s (returned p, t) c = c
  without_reply-Changes s (raised e, t) c = c

  some_pair-Changes :
      (s : AuthService) (x : Reply (TokenPair Token) × AuthService)
      → Changes s x.1
      → Changes s (some_pair lib x).1
  some_pair-Changes s (returned p, t) c = c
  some_pair-Changes s (raised e, t) c = c

  login_found-Changes :
      (now : ℕ) (w : String) (s : AuthService) (o : Option AuthUser)
      → Changes s (login_found lib now w s o).1
  unfolding login_found
  login_found-Changes now w s none = none_yet
  login_found-Changes now w s (some u) =
      let t = put_user u.id (λ v. record v { last_login = some now }) s in
      let edited : Changes s t =
        once (edit s u.id _ (edit_plain _ (λ v. refl) (λ v. refl) (λ v. omega arith))) in
      Changes-if s (u.is_active && lib.checkpw w u.password_hash) _ _
        (some_pair-Changes s _ (Changes-trans edited (create_token_pair-Changes now u t))) none_yet

  with_password-Changes :
      (now : ℕ) (i old new : String) (s : AuthService) (o : Option AuthUser)
      → Changes s (with_password lib now i old new s o).1
  unfolding with_password
  with_password-Changes now i old new s none = none_yet
  with_password-Changes now i old new s (some u) =
      Changes-if s (u.is_active && lib.checkpw old u.password_hash) _ _
        (after
          (after (once (edit s i _ (edit_plain _ (λ v. refl) (λ v. refl) (λ v. omega arith))))
            (close _ _ now))
          (draw _ (s.drawn + 1)))
        none_yet

  first_admin-Changes : (s : AuthService) (o : Option String) → Changes s (first_admin lib s o).1
  unfolding first_admin
  first_admin-Changes s none = Changes-if s (any_of (λ u. true) s.users) _ _ none_yet (
      without_reply-Changes s _ (
        Changes-trans (once (draw s (s.drawn + 1))) (
          create_user-Changes "admin" "admin@planagent.local" (lib.token_urlsafe s.drawn) admin _)))
  first_admin-Changes s (some w) =
      without_reply-Changes s _ (create_user-Changes "admin" "admin@planagent.local" w admin s)

  claim_default-Changes :
      (s : AuthService) (u : AuthUser) (o : Option String) → Changes s (claim_default lib s u o).1
  unfolding claim_default
  claim_default-Changes s u none = none_yet
  claim_default-Changes s u (some w) =
      Changes-if s (is_none u.last_login) _ _
        (after (once (edit s u.id _ (edit_plain _ (λ v. refl) (λ v. refl) (λ v. omega arith))))
          (draw _ (s.drawn + 1)))
        none_yet

  default_admin-Changes :
      (s : AuthService) (o : Option AuthUser) → Changes s (default_admin lib s o).1
  unfolding default_admin
  default_admin-Changes s (some u) =
      claim_default-Changes s u (configured s.config.default_admin_password)
  default_admin-Changes s none =
      Changes-if s (any_of is_admin s.users) _ _ none_yet
        (first_admin-Changes s (configured s.config.default_admin_password))

  or_rolled_back-Changes :
      (s t : AuthService) (x : Reply (TokenPair Token) × AuthService)
      → Changes s t
      → Changes t x.1
      → Changes s (or_rolled_back s x).1
  or_rolled_back-Changes s t (returned p, u) c d = Changes-trans c d
  or_rolled_back-Changes s t (raised e, u) c d = once (draw s u.drawn)

  renew_for-Changes :
      (now : ℕ) (v : Option ℕ) (s t : AuthService) (o : Option AuthUser)
      → Changes s t
      → Changes s (renew_for lib now v s t o).1
  unfolding renew_for
  renew_for-Changes now v s t none c = c
  renew_for-Changes now v s t (some u) c =
      Changes-if s (is_current v (some u)) _ _
        (or_rolled_back-Changes s t _ c (create_token_pair-Changes now u t)) c

  rotate-Changes :
      (now : ℕ) (t : Token) (i : String) (v : ℕ) (s : AuthService)
      → Changes s (rotate lib now t i v s).1
  unfolding rotate
  rotate-Changes now t i v s =
      Changes-if s (eqb (count_rows (consumable now (lib.hash_token t) i) s.refresh_tokens) 1) _ _
        (renew_for-Changes now (some v) s (spend lib now t i s) (get_user i s.users) (
          after (once (close s (consumable now (lib.hash_token t) i) now))
            (deny _ (lib.hash_token t) _)))
        (once (close s (consumable now (lib.hash_token t) i) now))

  rotate_named-Changes :
      (now : ℕ) (t : Token) (i : Option String) (v : Option ℕ) (s : AuthService)
      → Changes s (rotate_named lib now t i v s).1
  unfolding rotate_named
  rotate_named-Changes now t none v s = none_yet
  rotate_named-Changes now t (some i) none s = none_yet
  rotate_named-Changes now t (some i) (some v) s = rotate-Changes now t i v s

  rotate_payload-Changes :
      (now : ℕ) (t : Token) (o : Option Payload) (s : AuthService)
      → Changes s (rotate_payload lib now t o s).1
  unfolding rotate_payload
  rotate_payload-Changes now t none s = none_yet
  rotate_payload-Changes now t (some p) s = rotate_named-Changes now t p.sub p.ver s

  pub step-Changes : (c : ℕ × Call Token) (s : AuthService) → Changes s (step lib c s)
  unfolding step ensure_default_admin authenticate refresh_access_token revoke_token change_password
      revoke_user_sessions update_user_role deactivate_user
  step-Changes (now, starts) s = default_admin-Changes s _
  step-Changes (now, registers name mail w r) s = create_user-Changes name mail w r s
  step-Changes (now, logs_in name w) s =
      login_found-Changes now w s (find_row (is_named name) s.users)
  step-Changes (now, refreshes t) s =
      rotate_payload-Changes now t (decode_refresh_token lib s.config.issuer now t) s
  step-Changes (now, revokes t) s =
      after (after (once (close s (has_hash (lib.hash_token t)) now)) (deny _ (lib.hash_token t) _))
        (remember _ _)
  step-Changes (now, changes_password i old new) s =
      with_password-Changes now i old new s (get_user i s.users)
  step-Changes (now, ends_sessions i) s = Changes-if s (is_none (get_user i s.users)) _ _ none_yet (
      after (once (edit s i _ (edit_plain _ (λ v. refl) (λ v. refl) (λ v. omega arith))))
        (close _ _ now))
  step-Changes (now, sets_role i r) s = with_role-Changes now i r s (get_user i s.users)
  step-Changes (now, deactivates i) s = Changes-if s (is_none (get_user i s.users)) _ _ none_yet (
      once (
        edit s i _
          (record { same_id = λ u. refl; newer = λ u. omega arith; stays_out = λ u out. refl })))

  pub run-Changes : (cs : List (ℕ × Call Token)) (s : AuthService) → Changes s (run lib cs s)
  unfolding run
  run-Changes [] s = none_yet
  run-Changes (c ∷ cs) s = Changes-trans (step-Changes c s) (run-Changes cs (step lib c s))
