-- ===== src/Access/Admission.antt =====
-- Who comes through the last steps of `CommunityAccessMiddleware` (api/access.py of src/planagent).
use ming_jian.Base.{
  ℕ, String, ◌≡◌, ◌≢◌, refl, ◌⊎◌, inl, inr, Bool, true, false, not, ◌&&◌, List, Option, none, some,
  arith, ◌==◌, eq_iff, Bool-cases, is_some,
}
use ming_jian.Auth.{
  UserRole, admin, analyst, viewer, role_value, AuthUser, Payload, is_text, has_claims,
}
use ming_jian.Auth.Tokens.{get_user, required_access, of_type, match_user, match_subject}
use ming_jian.Access.{
  ScopeType, http, websocket, other_type, Scope, Settings, Network, Resolved, allowed, denied,
  verified, admin_only, reaches, refused, is_forbidden_viewer_write, handed, request_has_body,
}
use ming_jian.Access.Body.{Message, Received}
use ming_jian.Access.Middleware.{admitted, admitted_scope, call_app}

-- An active user with this id is an administrator. (`verify_token` takes the empty id for no user.)
abbrev pub AdminRow : Option AuthUser → Type 0
AdminRow none = ⊥
AdminRow (some u) = (u.is_active ≡ true) × (u.role ≡ admin)

abbrev pub OfAdmin : List AuthUser → Option String → Type 0
OfAdmin users none = ⊥
OfAdmin users (some i) = (i ≡ "") ⊎ AdminRow (get_user i users)

admin-role : (r : UserRole) → (role_value r == "admin") ≡ true → r ≡ admin
admin-role admin e = refl
admin-role analyst e = cc
admin-role viewer e = cc

is_text-same :
    (o : Option String) (a b : String) → is_text o a ≡ true → is_text o b ≡ true → (b == a) ≡ true
is_text-same none a b e f = cc
is_text-same (some t) a b e f = ground (arith, eq_iff t a, eq_iff t b, eq_iff b a)

match_user-AdminRow :
    (p : Payload) (q : Payload) (o : Option AuthUser)
    → match_user p o ≡ some q
    → is_text p.role "admin" ≡ true
    → AdminRow o
match_user-AdminRow p q none e a = cc
match_user-AdminRow p q (some u) e a = (
  ground arith,
  admin-role u.role (is_text-same p.role "admin" (role_value u.role) a (ground arith)),
)

pub match_subject-OfAdmin :
    (users : List AuthUser) (p q : Payload) (o : Option String)
    → match_subject users p o ≡ some q
    → is_text p.role "admin" ≡ true
    → is_some o ≡ true
    → OfAdmin users o
match_subject-OfAdmin users p q none e a known = cc
match_subject-OfAdmin users p q (some i) e a known = elim (Bool-cases (i == "")) [
  | inl blank ↦ inl ((eq_iff i "").0 blank)
  | inr full ↦ inr (match_user-AdminRow p q (get_user i users) (rw full at e) a)
]

pub match_subject-same :
    (users : List AuthUser) (p q : Payload) (o : Option String)
    → match_subject users p o ≡ some q
    → p ≡ q
match_subject-same users p q none e = ground arith
match_subject-same users p q (some i) e = ground arith

-- The claims of a payload that was decoded with the claims of an access token.
pub has_claims-sub : (p : Payload) → has_claims p required_access ≡ true → is_some p.sub ≡ true
has_claims-sub p e = ground arith

pub of_type-some :
    (k : String) (o : Option Payload) (p : Payload) → of_type k o ≡ some p → o ≡ some p
of_type-some k none p e = cc
of_type-some k (some q) p e = ground arith

handed-reached :
    (p o : Option Payload) (protocol chosen : Option String) (r : Received) (m : Option Message)
    → handed p protocol r ≡ reaches o chosen m
    → o ≡ p
handed-reached p o protocol chosen (Received.replays n ms) m e = ground arith
handed-reached p o protocol chosen Received.too_large m e = cc
handed-reached p o protocol chosen Received.out_of_messages m e = cc

reached :
    (net : Network) (st : Settings) (sc : Scope) (p o : Option Payload)
    (protocol chosen : Option String) (ms : List Message) (m : Option Message)
    → call_app net st sc p protocol ms ≡ reaches o chosen m
    → o ≡ p
unfolding call_app
reached net st sc p o protocol chosen ms m e = elim (Bool-cases (request_has_body sc)) [
  | inl body ↦ handed-reached p o protocol chosen _ m (rw body at e)
  | inr bare ↦ ground arith
]

admitted_scope-reached :
    (net : Network) (st : Settings) (sc : Scope) (protocol chosen : Option String)
    (ms : List Message) (p : Payload) (t : ScopeType) (o : Option Payload) (m : Option Message)
    → admitted_scope net st sc protocol ms p t ≡ reaches o chosen m
    → o ≡ some p
admitted_scope-reached net st sc protocol chosen ms p http o m e =
    elim (Bool-cases (is_forbidden_viewer_write sc p)) [
      | inl bad ↦ cc (rw bad at e)
      | inr fine ↦ reached net st sc (some p) o protocol chosen ms m (rw fine at e)
    ]
admitted_scope-reached net st sc protocol chosen ms p websocket o m e = ground arith
admitted_scope-reached net st sc protocol chosen ms p other_type o m e = cc

refused-ne-reaches :
    (t : ScopeType) (n : ℕ) (o : Option Payload) (chosen : Option String) (m : Option Message)
    → refused t n ≢ reaches o chosen m
refused-ne-reaches http n o chosen m e = cc
refused-ne-reaches websocket n o chosen m e = cc
refused-ne-reaches other_type n o chosen m e = cc

-- The application is reached through the guard with the payload that was resolved.
pub admitted-reached :
    (net : Network) (st : Settings) (sc : Scope) (protocol chosen : Option String)
    (ms : List Message) (r : Resolved) (o : Option Payload) (m : Option Message)
    → admitted net st sc protocol ms r ≡ reaches o chosen m
    → (p : Payload) × (r ≡ allowed p) × (o ≡ some p)
unfolding admitted
admitted-reached net st sc protocol chosen ms (denied n) o m e =
    absurd (refused-ne-reaches sc.scope_type n o chosen m e)
admitted-reached net st sc protocol chosen ms (allowed p) o m e =
    (p, refl, admitted_scope-reached net st sc protocol chosen ms p sc.scope_type o m e)

pub admin_only-allowed :
    (r : Resolved) (p : Payload)
    → admin_only r ≡ allowed p
    → (r ≡ allowed p) × (is_text p.role "admin" ≡ true)
admin_only-allowed (denied n) p e = cc
admin_only-allowed (allowed q) p e = elim (Bool-cases (is_text q.role "admin")) [
  | inl good ↦ (rw good at e, ground arith)
  | inr bad ↦ cc (rw bad at e)
]

pub verified-allowed : (o : Option Payload) (p : Payload) → verified o ≡ allowed p → o ≡ some p
verified-allowed none p e = cc
verified-allowed (some q) p e = ground arith

pub remote_untested : (trusted remote : Bool) → remote ≡ true → (not remote && not trusted) ≡ false
remote_untested trusted remote e = rw e refl
