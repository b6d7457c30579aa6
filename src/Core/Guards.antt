-- ===== src/Core/Guards.antt =====
-- The interceptors of pkg/core/server.go: authentication, then audit, around each unary call. They have
-- the handlers and outcomes of the agent's.
use mandau.Base.{
  ◌≡◌, ◌⊎◌, inl, inr, ap, ◌∙◌, get, ◌<>◌, Option-cases, refl, String, none, some, List, [], ◌∷◌,
  Result, ok, err, ◌>>=◌, in_context,
}
use mandau.Plugin.{Identity, AuditEntry}
use mandau.Plugin.Registry.{Registry, audit_all}
use mandau.Plugin.Registry.Calls.{each_logged, audit_all_lem}
use mandau.Rbac.{RbacPlugin, User, authenticate}
use mandau.Agent.Interceptors.{
  Certificate, Peer, no_peer, no_tls, over_tls, unknown, Outcome, returns, fails, panics, Setting,
  audit_entry, checked_by, auth_request, Handler,
}

-- The caller by the subject of its certificate alone.
abbrev pub named : String → Identity
named s = record { user_id = s; device_id = ""; roles = []; attributes = []; certificate = [] }

unfoldable peer_identity : Peer → Result Identity
peer_identity no_peer = err "no peer found"
peer_identity no_tls = err "unexpected peer transport credentials"
peer_identity (over_tls []) = err "could not verify peer certificate"
peer_identity (over_tls ([] ∷ chains)) = err "could not verify peer certificate"
peer_identity (over_tls ((cert ∷ chain) ∷ chains)) = ok (named cert.common_name)

unfoldable core_identify : Setting → Peer → Result Identity
unfolding peer_identity
core_identify s peer = in_context "auth failed: " (peer_identity peer >>= checked_by s.auth s)

-- The core's entries name no agent.
abbrev core_entry : Setting → Identity → String → AuditEntry
core_entry s identity result = record (audit_entry s (some identity) result) { agent_id = "" }

identify-rbac :
    (p : RbacPlugin) (s : Setting) (cert : Certificate) (chain : List Certificate)
    (chains : List (List Certificate))
    → s.auth ≡ some (authenticate p)
    → core_identify s (over_tls ((cert ∷ chain) ∷ chains))
      ≡ in_context "auth failed: " (authenticate p (auth_request (named cert.common_name) s.method))
unfolding core_identify
identify-rbac p s cert chain chains h =
    ap (λ o. in_context "auth failed: " (checked_by o s (named cert.common_name))) h

module _ {P W R : Type 0} (log : P → AuditEntry → W → W) (registry : Registry P) where
  -- A panic passes through it, and nothing further out recovers from it.
  abbrev core_logged : Setting → Identity → W × Outcome R → W × Outcome R
  core_logged s identity (w, returns r) =
      (audit_all log registry (core_entry s identity "success") w, returns r)
  core_logged s identity (w, fails c e) =
      (audit_all log registry (core_entry s identity "error") w, fails c e)
  core_logged s identity (w, panics) = (w, panics)

  -- What is left of a call that ends so: one entry with the result, or none if the handler panics.
  abbrev pub with_core_entry : Setting → Identity → W → Outcome R → W × Outcome R
  with_core_entry s identity w panics = (w, panics)
  with_core_entry s identity w (returns r) = (
    each_logged log registry (record (audit_entry s (some identity) "success") { agent_id = "" }) w,
    returns r,
  )
  with_core_entry s identity w (fails c e) = (
    each_logged log registry (record (audit_entry s (some identity) "error") { agent_id = "" }) w,
    fails c e,
  )

  core_logged_lem :
      (s : Setting) (identity : Identity) (x : W × Outcome R)
      → core_logged s identity x ≡ with_core_entry s identity x.0 x.1
  core_logged_lem s identity (w, returns r) =
      ap (λ v. (v, returns r)) (audit_all_lem log registry (core_entry s identity "success") w)
  core_logged_lem s identity (w, fails c e) =
      ap (λ v. (v, fails c e)) (audit_all_lem log registry (core_entry s identity "error") w)
  core_logged_lem s identity (w, panics) = refl

  abbrev entered : Setting → Result Identity → Handler W R → W → W × Outcome R
  entered s (err e) handler w = (w, fails unknown e)
  entered s (ok identity) handler w = core_logged s identity (handler identity w)

  unfoldable pub core_unary : Setting → Peer → Handler W R → W → W × Outcome R
  unfolding core_identify
  core_unary s peer handler w = entered s (core_identify s peer) handler w

  -- With the `rbac-auth` plugin, a unary call of the core over a verified certificate reaches its handler
  -- if and only if the plugin has a user of the certificate's common name: then what the handler returns,
  -- or how it fails, goes out with one audit entry, of success or of error, and a panic goes through
  -- without one; and otherwise the call fails, and leaves the world as it was.
  pub core_unary-rbac :
      (p : RbacPlugin) (s : Setting) (cert : Certificate) (chain : List Certificate)
      (chains : List (List Certificate)) (handler : Handler W R) (w : W)
      → s.auth ≡ some (authenticate p)
      → ((user : User) × (get p.users cert.common_name ≡ some user)
          × (core_unary s (over_tls ((cert ∷ chain) ∷ chains)) handler w
              ≡ with_core_entry s
                  (named cert.common_name)
                  (handler (named cert.common_name) w).0
                  (handler (named cert.common_name) w).1))
        ⊎ ((get p.users cert.common_name ≡ none)
            × (core_unary s (over_tls ((cert ∷ chain) ∷ chains)) handler w
                ≡ (w, fails unknown ("auth failed: " <> "user not found: " <> cert.common_name))))
  unfolding core_unary authenticate
  core_unary-rbac p s cert chain chains handler w h =
      let known : core_unary s (over_tls ((cert ∷ chain) ∷ chains)) handler w
          ≡ entered s
              (in_context "auth failed: "
                (authenticate p (auth_request (named cert.common_name) s.method)))
              handler w =
        ap (λ r. entered s r handler w) (identify-rbac p s cert chain chains h) in
      elim (Option-cases (get p.users cert.common_name)) [
        | inl e ↦ inr (e, known ∙ rw (e, authenticate) refl)
        | inr (user, e) ↦ inl (
          user,
          e,
          known
              ∙ rw (e, authenticate)
                  (core_logged_lem s (named cert.common_name) (handler (named cert.common_name) w)),
        )
      ]
