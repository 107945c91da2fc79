-- ===== src/Auth/History.antt =====
-- The calls that change the state of `AuthService` (services/auth.py of src/planagent), in any order.
use ming_jian.Base.{ℕ, String, List, [], ◌∷◌}
use ming_jian.Auth.{UserRole, AuthService, Crypto}
use ming_jian.Auth.Tokens.{refresh_access_token, revoke_token}
use ming_jian.Auth.Users.{
  create_user, authenticate, change_password, revoke_user_sessions, update_user_role,
  deactivate_user, ensure_default_admin,
}

pub data Call (Token : Type 0) : Type 0 where
  starts : Call Token
  registers : String → String → String → UserRole → Call Token
  logs_in : String → String → Call Token
  refreshes : Token → Call Token
  revokes : Token → Call Token
  changes_password : String → String → String → Call Token
  ends_sessions : String → Call Token
  sets_role : String → UserRole → Call Token
  deactivates : String → Call Token

module _ {Token : Type 0} (lib : Crypto Token) where
  unfoldable pub step : ℕ × Call Token → AuthService → AuthService
  step (now, starts) s = (ensure_default_admin lib s).1
  step (now, registers name mail w r) s = (create_user lib name mail w r s).1
  step (now, logs_in name w) s = (authenticate lib now name w s).1
  step (now, refreshes t) s = (refresh_access_token lib now t s).1
  step (now, revokes t) s = revoke_token lib now t s
  step (now, changes_password i old new) s = (change_password lib now i old new s).1
  step (now, ends_sessions i) s = (revoke_user_sessions now i s).1
  step (now, sets_role i r) s = (update_user_role now i r s).1
  step (now, deactivates i) s = (deactivate_user i s).1

  unfoldable pub run : List (ℕ × Call Token) → AuthService → AuthService
  run [] s = s
  run (c ∷ cs) s = run cs (step c s)
