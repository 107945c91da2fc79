-- ===== src/Auth/Tests.antt =====
-- Concrete accounts: the theorems of Auth at inputs that exercise services/auth.py of src/planagent.
use ming_jian.Base.{ℕ, ◌≤◌, ◌≡◌, refl, true, false, List, [], ◌∷◌, none, some, arith}
use ming_jian.Auth.{analyst, Payload, AuthService, TokenPair, returned, raised, multiple_found}
use ming_jian.Auth.Tokens.{
  access_payload, new_access, verify_token, revoke_token, refresh_access_token, is_token_revoked,
}
use ming_jian.Auth.Sample.{
  plain, settings, fresh_service, ann, with_ann, ann_logged_in, first_token, or_empty,
}
use ming_jian.Auth.Users.{authenticate, create_user, change_password}
use ming_jian.Auth.History.{Call, registers, logs_in, refreshes, run, step}
use ming_jian.Auth.Rotation.{granted, refreshes_of, refreshed_once}
use ming_jian.Auth.Withdrawal.{new_password, withdraw, withdrawn_for_good}
use ming_jian.Auth.Login.{revoked_never_verified, login_verifies}

register_ann : (create_user plain "ann" "a@x" "word" analyst fresh_service).1 ≡ with_ann
unfolding create_user
register_ann = refl

-- A name and an address of two different accounts: neither error of the source is raised.
two_matches :
    (create_user plain "ann" "b@x" "word" analyst (record fresh_service {
      users = ann ∷ record ann { id = "9"; username = "bob"; email = "b@x" } ∷ [];
    })).0
    ≡ raised multiple_found
unfolding create_user
two_matches = refl

abbrev visits : List (ℕ × Call Payload)
visits =
    (50, registers "ann" "a@x" "word" analyst)
    ∷ (100, logs_in "ann" "word")
    ∷ (110, refreshes first_token)
    ∷ (120, refreshes first_token)
    ∷ []

visits_refresh : refreshes_of plain (or_empty first_token.jti) visits fresh_service ≡ 1
unfolding refreshes_of step create_user authenticate refresh_access_token
visits_refresh = refl

refreshed_once_example : refreshes_of plain (plain.hash_token first_token) visits fresh_service ≤ 1
refreshed_once_example = refreshed_once plain first_token visits fresh_service refl

abbrev logged_in : AuthService
logged_in = record with_ann {
  users = ann_logged_in ∷ [];
  refresh_tokens =
      record {
        token_hash = "3";
        user_id = "1";
        issued_at = 100;
        expires_at = 2592100;
        revoked_at = none;
      }
      ∷ [];
  drawn = 4;
}

log_in : (authenticate plain 100 "ann" "word" with_ann).1 ≡ logged_in
unfolding authenticate
log_in = refl

abbrev first_access : Payload
first_access = new_access plain 100 ann with_ann

revoked_never_verified_example :
    verify_token plain 130 first_access
      (run plain ((120, logs_in "ann" "word") ∷ []) (revoke_token plain 110 first_access logged_in))
    ≡ none
revoked_never_verified_example =
    revoked_never_verified plain 110 130 first_access ((120, logs_in "ann" "word") ∷ []) logged_in

first_access_open : is_token_revoked plain first_access with_ann ≡ false
unfolding is_token_revoked
first_access_open = refl

login_verifies_example :
    (pair : TokenPair Payload) × ((authenticate plain 100 "ann" "word" with_ann).0
      ≡ returned (some pair))
    × (verify_token plain 3000 pair.access_token (authenticate plain 100 "ann" "word" with_ann).1
        ≡ some (access_payload settings 100 "2" ann))
login_verifies_example =
    login_verifies plain 100 3000 "ann" "word" ann with_ann refl refl refl refl refl refl
      first_access_open (omega arith) (omega arith)

password_taken : (withdraw plain 110 "1" (new_password "word" "new word") logged_in).0 ≡ true
unfolding change_password
password_taken = refl

withdrawn_for_good_example :
    (verify_token plain 130 first_access (
        run plain
          ((120, logs_in "ann" "new word") ∷ [])
          (withdraw plain 110 "1" (new_password "word" "new word") logged_in).1)
      ≡ none)
    × (granted
          (refresh_access_token plain 130 first_access (
            run plain
              ((120, logs_in "ann" "new word") ∷ [])
              (withdraw plain 110 "1" (new_password "word" "new word") logged_in).1)).0
        ≡ false)
withdrawn_for_good_example =
    withdrawn_for_good plain 110 130 0 "1" (new_password "word" "new word") ann_logged_in
      first_access ((120, logs_in "ann" "new word") ∷ []) logged_in refl refl refl refl
      (omega arith) password_taken
