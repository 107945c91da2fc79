-- ===== src/Access/Local.antt =====
-- Who reaches the application without remote access (api/access.py of src/planagent).
use ming_jian.Base.{
  ℕ, String, ◌≡◌, refl, ap, ◌∙◌, ◌⊎◌, inl, inr, Bool, true, false, not, ◌&&◌, ◌||◌, List, Option,
  some, arith, Bool-cases,
}
use ming_jian.Auth.{Payload, AuthService, Crypto}
use ming_jian.Access.{
  ScopeType, http, websocket, other_type, Scope, Settings, Network, is_public_request, allowed,
  local_session, reaches, is_loopback_client, scope_header,
}
use ming_jian.Access.Body.{Message}
use ming_jian.Access.Admission.{admitted-reached}
use ming_jian.Access.Middleware.{
  resolve_community_access, guarded, by_type, middleware, offered, is_trusted_local_request,
  has_proxy_credential, host_allowed, parse_host,
}

-- A proxy of the deployment vouches for the request, or the peer is on this machine and asks for an
-- allowed host from an allowed origin.
abbrev pub IsLocal : Network → Settings → Scope → Type 0
IsLocal net st sc =
    (has_proxy_credential st sc ≡ true)
    ⊎ ((is_loopback_client net sc.client_host ≡ true)
        × (host_allowed net st sc (parse_host net (scope_header "host" sc.headers)) ≡ true))

trusted-IsLocal :
    (net : Network) (st : Settings) (sc : Scope)
    → is_trusted_local_request net st sc ≡ true
    → (is_loopback_client net sc.client_host || has_proxy_credential st sc) ≡ true
    → IsLocal net st sc
unfolding is_trusted_local_request
trusted-IsLocal net st sc trusted near = elim (Bool-cases (has_proxy_credential st sc)) [
  | inl proxy ↦ inl proxy
  | inr direct ↦ inr (ground arith, ground arith)
]

tested :
    (remote trusted : Bool) → remote ≡ false → (not remote && not trusted) ≡ false → trusted ≡ true
tested remote true e f = refl
tested remote false e f = ground arith

module _ {Token : Type 0} (lib : Crypto Token) (read : String → Token) (net : Network) where
  resolve_local :
      (now : ℕ) (st : Settings) (sc : Scope) (o : Option String) (s : AuthService) (p : Payload)
      → st.remote_access_enabled ≡ false
      → resolve_community_access lib read net now st sc o s ≡ allowed p
      → ((is_loopback_client net sc.client_host || has_proxy_credential st sc) ≡ true)
        × (p ≡ local_session)
  unfolding resolve_community_access
  resolve_local now st sc o s p local e =
      elim (Bool-cases (is_loopback_client net sc.client_host || has_proxy_credential st sc)) [
        | inl near ↦ (near, ground arith)
        | inr far ↦ cc (rw far at (rw local at e))
      ]

  guarded-IsLocal :
      (now : ℕ) (st : Settings) (sc : Scope) (ms : List Message) (s : AuthService)
      (o : Option Payload) (protocol : Option String) (m : Option Message)
      → st.remote_access_enabled ≡ false
      → is_trusted_local_request net st sc ≡ true
      → guarded lib read net now st sc ms s ≡ reaches o protocol m
      → (o ≡ some local_session) × IsLocal net st sc
  guarded-IsLocal now st sc ms s o protocol m local trusted e =
      let offer = offered st sc sc.scope_type (scope_header "authorization" sc.headers) in
      let (p, r, by_guard) = admitted-reached net st sc offer.1 protocol ms _ o m e in
      let (near, same) = resolve_local now st sc offer.0 s p local r in
      (by_guard ∙ ap some same, trusted-IsLocal net st sc trusted near)

  by_type-IsLocal :
      (now : ℕ) (st : Settings) (sc : Scope) (ms : List Message) (s : AuthService)
      (o : Option Payload) (protocol : Option String) (m : Option Message) (t : ScopeType)
      → st.remote_access_enabled ≡ false
      → (t ≡ websocket) ⊎ (is_public_request sc false ≡ false)
      → by_type lib read net now st sc ms s t ≡ reaches o protocol m
      → (o ≡ some local_session) × IsLocal net st sc
  by_type-IsLocal now st sc ms s o protocol m other_type local closed e = cc
  by_type-IsLocal now st sc ms s o protocol m websocket local closed e =
      elim (Bool-cases (not st.remote_access_enabled && not (is_trusted_local_request net st sc))) [
        | inl strange ↦ cc (rw strange at e)
        | inr known ↦
            guarded-IsLocal now st sc ms s o protocol m local
              (tested st.remote_access_enabled (is_trusted_local_request net st sc) local known)
              (rw known at e)
      ]
  by_type-IsLocal now st sc ms s o protocol m http local (inl no_http) e = cc
  by_type-IsLocal now st sc ms s o protocol m http local (inr private) e =
      let private' : is_public_request sc st.remote_access_enabled ≡ false =
        ap (is_public_request sc) local ∙ private in
      elim (Bool-cases (not st.remote_access_enabled && not (is_trusted_local_request net st sc))) [
        | inl strange ↦ cc (rw strange at e)
        | inr known ↦
            guarded-IsLocal now st sc ms s o protocol m local
              (tested st.remote_access_enabled (is_trusted_local_request net st sc) local known)
              (rw private' at (rw known at e))
      ]

  -- Without remote access, a request that is not public, or a web socket, reaches the application
  -- only with the session of the local administrator, and only if the deployment's proxy vouches
  -- for it or it comes from this machine, for an allowed host and from an allowed origin.
  pub trusted_peers_only :
      (now : ℕ) (st : Settings) (sc : Scope) (ms : List Message) (s : AuthService)
      (o : Option Payload) (protocol : Option String) (m : Option Message)
      → st.remote_access_enabled ≡ false
      → (sc.scope_type ≡ websocket) ⊎ (is_public_request sc false ≡ false)
      → middleware lib read net now st sc ms s ≡ reaches o protocol m
      → (o ≡ some local_session) × IsLocal net st sc
  unfolding middleware
  trusted_peers_only now st sc ms s o protocol m local closed e =
      by_type-IsLocal now st sc ms s o protocol m sc.scope_type local closed e
