-- ===== src/Access/Remote.antt =====
-- Who reaches the application through `CommunityAccessMiddleware` (api/access.py of src/planagent).
use ming_jian.Base.{
  ℕ, String, ◌≡◌, sym, ap, ◌∙◌, ◌⊎◌, inl, inr, true, false, not, ◌&&◌, List, Option, none, some,
  ◌==◌, Bool-cases, Option-cases,
}
use mathlib.Core.Path.{subst}
use ming_jian.Base.Texts.{lower_is, partition_at}
use ming_jian.Auth.{Payload, AuthService, Crypto, is_text}
use ming_jian.Auth.Tokens.{verify_token, is_token_revoked, required_access, of_type, match_subject}
use ming_jian.Access.{
  ScopeType, http, websocket, other_type, Scope, Settings, Network, is_public_request, allowed,
  admin_only, reaches, scope_header,
}
use ming_jian.Access.Body.{Message}
use ming_jian.Access.Middleware.{
  verify_bearer, resolve_community_access, guarded, by_type, middleware, offered,
  is_trusted_local_request,
}
use ming_jian.Access.Admission.{
  OfAdmin, match_subject-OfAdmin, match_subject-same, has_claims-sub, of_type-some,
  admitted-reached, admin_only-allowed, verified-allowed, remote_untested,
}

module _ {Token : Type 0} (lib : Crypto Token) (read : String → Token) (net : Network) where
  verify_token-OfAdmin :
      (now : ℕ) (t : Token) (p : Payload) (s : AuthService)
      → verify_token lib now t s ≡ some p
      → is_text p.role "admin" ≡ true
      → OfAdmin s.users p.sub
  unfolding verify_token
  verify_token-OfAdmin now t p s e a = elim (Bool-cases (is_token_revoked lib t s)) [
    | inl gone ↦ cc (rw gone at e)
    | inr open_token ↦
        elim (Option-cases (of_type "access" (lib.decode required_access s.config.issuer now t))) [
          | inl bad ↦ cc (rw open_token at e, bad)
          | inr (q, f) ↦
              let e' : match_subject s.users q q.sub ≡ some p = rw f at (rw open_token at e) in
              let same = match_subject-same s.users q p q.sub e' in
              subst (λ x. OfAdmin s.users x.sub) same
                (match_subject-OfAdmin s.users q p q.sub e' (rw same a) (
                  has_claims-sub q
                    (lib.decode_required required_access s.config.issuer now t q
                      (of_type-some "access" _ q f)).0))
        ]
  ]

  verify_bearer-allowed :
      (now : ℕ) (o : Option String) (s : AuthService) (p : Payload)
      → verify_bearer lib read net now o s ≡ allowed p
      → (t : Token) × (verify_token lib now t s ≡ some p)
  unfolding verify_bearer
  verify_bearer-allowed now none s p e = cc
  verify_bearer-allowed now (some a) s p e =
      elim (Bool-cases
        (lower_is (partition_at 32 a).0 "bearer" && not ((partition_at 32 a).1 == ""))) [
          | inl good ↦ (read (partition_at 32 a).1, verified-allowed _ p (rw good at e))
          | inr bad ↦ cc (rw bad at e)
        ]

  resolve_remote :
      (now : ℕ) (st : Settings) (sc : Scope) (o : Option String) (s : AuthService)
      → st.remote_access_enabled ≡ true
      → resolve_community_access lib read net now st sc o s
        ≡ admin_only (verify_bearer lib read net now o s)
  unfolding resolve_community_access
  resolve_remote now st sc o s remote = rw remote

  guarded-OfAdmin :
      (now : ℕ) (st : Settings) (sc : Scope) (ms : List Message) (s : AuthService)
      (o : Option Payload) (protocol : Option String) (m : Option Message)
      → st.remote_access_enabled ≡ true
      → guarded lib read net now st sc ms s ≡ reaches o protocol m
      → (p : Payload) × (o ≡ some p) × (is_text p.role "admin" ≡ true) × OfAdmin s.users p.sub
  guarded-OfAdmin now st sc ms s o protocol m remote e =
      let offer = offered st sc sc.scope_type (scope_header "authorization" sc.headers) in
      let (p, r, reached_by) = admitted-reached net st sc offer.1 protocol ms _ o m e in
      let (bearer, is_admin) =
        admin_only-allowed _ p (sym (resolve_remote now st sc offer.0 s remote) ∙ r) in
      let (t, known) = verify_bearer-allowed now offer.0 s p bearer in
      (p, reached_by, is_admin, verify_token-OfAdmin now t p s known is_admin)

  by_type-OfAdmin :
      (now : ℕ) (st : Settings) (sc : Scope) (ms : List Message) (s : AuthService)
      (o : Option Payload) (protocol : Option String) (m : Option Message) (t : ScopeType)
      → st.remote_access_enabled ≡ true
      → (t ≡ websocket) ⊎ (is_public_request sc true ≡ false)
      → by_type lib read net now st sc ms s t ≡ reaches o protocol m
      → (p : Payload) × (o ≡ some p) × (is_text p.role "admin" ≡ true) × OfAdmin s.users p.sub
  by_type-OfAdmin now st sc ms s o protocol m other_type remote closed e = cc
  by_type-OfAdmin now st sc ms s o protocol m websocket remote closed e =
      guarded-OfAdmin now st sc ms s o protocol m remote (
        rw (remote_untested (is_trusted_local_request net st sc) st.remote_access_enabled remote) at
          e)
  by_type-OfAdmin now st sc ms s o protocol m http remote (inl no_http) e = cc
  by_type-OfAdmin now st sc ms s o protocol m http remote (inr private) e =
      let private' : is_public_request sc st.remote_access_enabled ≡ false =
        ap (is_public_request sc) remote ∙ private in
      guarded-OfAdmin now st sc ms s o protocol m remote (
        rw private' at (
          rw (remote_untested (is_trusted_local_request net st sc) st.remote_access_enabled remote)
            at e))

  -- With remote access enabled, a request that is not public, or a web socket, reaches the
  -- application only with the claims of an administrator: the application is handed them, and the
  -- user that they name (unless by the empty id) is at that moment active and an administrator.
  pub remote_admin_only :
      (now : ℕ) (st : Settings) (sc : Scope) (ms : List Message) (s : AuthService)
      (o : Option Payload) (protocol : Option String) (m : Option Message)
      → st.remote_access_enabled ≡ true
      → (sc.scope_type ≡ websocket) ⊎ (is_public_request sc true ≡ false)
      → middleware lib read net now st sc ms s ≡ reaches o protocol m
      → (p : Payload) × (o ≡ some p) × (is_text p.role "admin" ≡ true) × OfAdmin s.users p.sub
  unfolding middleware
  remote_admin_only now st sc ms s o protocol m remote closed e =
      by_type-OfAdmin now st sc ms s o protocol m sc.scope_type remote closed e
