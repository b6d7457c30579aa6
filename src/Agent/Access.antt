-- ===== src/Agent/Access.antt =====
-- Which calls reach a handler of the agent, and what is audited of them.
use mandau.Base.{
  true, false, Bool, ◌≡◌, ◌≢◌, ◌⊎◌, refl, sym, ap, ◌∙◌, inl, inr, String, Option, none, some,
  Result, Result-cases, ok, err, Bool-cases, if◌then◌else◌,
}
use mandau.Plugin.{Identity, PolicyRequest, PolicyDecision, AuditEntry}
use mandau.Plugin.Registry.{Registry}
use mandau.Plugin.Registry.Calls.{each_logged, audit_all_lem}
use mandau.Rbac.{RbacPlugin, evaluate}
use mandau.Rbac.Access.{IsGranted, evaluate_iff}
use mandau.Agent.Interceptors.{
  Peer, Outcome, returns, fails, panics, unauthenticated, internal, Answer, decides, errs, Setting,
  audit_entry, policy_request, identify, Handler, recovered, recovery, denied, under_policy,
  answered, logged, audited, unary, streaming,
}

-- How a call ends for the caller: a panic of its handler is an internal error.
abbrev pub settled : {R : Type 0} → Outcome R → Outcome R
settled (returns r) = returns r
settled (fails c e) = fails c e
settled panics = fails internal "internal error"

-- The result that an outcome has in the audit log.
abbrev result_of : {R : Type 0} → Outcome R → String
result_of (returns r) = "success"
result_of (fails c e) = "error"
result_of panics = "error"

abbrev answer_of : Result PolicyDecision → Answer
answer_of (ok d) = decides d
answer_of (err e) = errs none e

-- The `rbac-auth` plugin as the policy.
abbrev pub rbac_policy : RbacPlugin → PolicyRequest → Answer
rbac_policy p req = answer_of (evaluate p req)

reason_of : {P : Type 0} (b : Bool) → (b ≡ true) ⊎ P → b ≡ false → P
reason_of b (inl t) h = cc
reason_of b (inr p) h = p

module _ {P W R : Type 0} (log : P → AuditEntry → W → W) (registry : Registry P) where
  -- A result with one entry for it in the audit log.
  abbrev pub with_entry : Setting → Identity → W × Outcome R → W × Outcome R
  with_entry s i (w, o) = (each_logged log registry (audit_entry s (some i) (result_of o)) w, o)

  logged-recovered :
      (s : Setting) (i : Identity) (x : W × Outcome R)
      → logged log registry s i (recovered x) ≡ with_entry s i (x.0, settled x.1)
  logged-recovered s i (w, returns r) =
      ap (λ v. (v, returns r)) (audit_all_lem log registry (audit_entry s (some i) "success") w)
  logged-recovered s i (w, fails c e) =
      ap (λ v. (v, fails c e)) (audit_all_lem log registry (audit_entry s (some i) "error") w)
  logged-recovered s i (w, panics) =
      ap (λ v. (v, fails internal "internal error"))
        (audit_all_lem log registry (audit_entry s (some i) "error") w)

  unary-unauthenticated :
      (s : Setting) (peer : Peer) (handler : Handler W R) (w : W) (e : String)
      → identify s peer ≡ err e
      → unary log registry s peer handler w ≡ (w, fails unauthenticated "authentication failed")
  unfolding unary
  unary-unauthenticated s peer handler w e h = rw (h, unary) refl

  -- The stream of an identified caller always reaches its handler, whatever the policy says. A panic
  -- becomes an internal error with the text "internal error", and one audit entry tells how the stream
  -- ended. The stream of a caller that is not identified fails as unauthenticated, and leaves the world
  -- as it was.
  pub streaming_lem :
      (s : Setting) (peer : Peer) (handler : Handler W R) (w : W)
      → ((i : Identity) × (identify s peer ≡ ok i)
          × (streaming log registry s peer handler w
              ≡ with_entry s i ((handler i w).0, settled (handler i w).1)))
        ⊎ ((e : String) × (identify s peer ≡ err e)
            × (streaming log registry s peer handler w
                ≡ (w, fails unauthenticated "authentication failed")))
  unfolding streaming recovery audited
  streaming_lem s peer handler w = elim (Result-cases (identify s peer)) [
    | inl (e, h) ↦ inr (e, h, rw (h, streaming) refl)
    | inr (i, h) ↦ inl (i, h, rw (h, streaming) (logged-recovered s i (handler i w)))
  ]

  under_policy-rbac :
      (p : RbacPlugin) (s : Setting) (handler : Handler W R) (w : W) (i : Identity)
      (o : Option (PolicyRequest → Answer))
      → o ≡ some (rbac_policy p)
      → (IsGranted p i.user_id (policy_request i s.method).action
          × (under_policy o s handler i w ≡ handler i w))
        ⊎ ((reason : String) × (reason ≢ "")
            × (IsGranted p i.user_id (policy_request i s.method).action → ⊥)
            × (under_policy o s handler i w ≡ (w, denied reason)))
  under_policy-rbac p s handler w i o h =
      let (d, e, f, g) = evaluate_iff p (policy_request i s.method) in
      let q : under_policy o s handler i w
          ≡ (if d.allowed then handler i w else (w, denied d.reason)) =
        ap (λ o. under_policy o s handler i w) h ∙ ap (λ r. answered (answer_of r) handler i w) e in
      elim (Bool-cases d.allowed) [
        | inl y ↦ inl (f.0 y, q ∙ ap (λ b. if b then handler i w else (w, denied d.reason)) y)
        | inr n ↦ inr (
          d.reason,
          reason_of d.allowed g n,
          (λ x. cc (sym n ∙ f.1 x)),
          q ∙ ap (λ b. if b then handler i w else (w, denied d.reason)) n,
        )
      ]

  -- Under the `rbac-auth` policy, the unary call of an identified caller reaches its handler if and
  -- only if the caller is granted the action that the agent asks about, whose resource and action are
  -- empty; otherwise it is denied with a reason and the world is left as it was. Both have exactly one
  -- audit entry, which tells how the call ended, and no panic gets out.
  pub unary-rbac :
      (p : RbacPlugin) (s : Setting) (peer : Peer) (handler : Handler W R) (w : W) (i : Identity)
      → s.policy ≡ some (rbac_policy p)
      → identify s peer ≡ ok i
      → (IsGranted p i.user_id (policy_request i s.method).action
          × (unary log registry s peer handler w
              ≡ with_entry s i ((handler i w).0, settled (handler i w).1)))
        ⊎ ((reason : String) × (reason ≢ "")
            × (IsGranted p i.user_id (policy_request i s.method).action → ⊥)
            × (unary log registry s peer handler w ≡ with_entry s i (w, denied reason)))
  unfolding unary audited recovery
  unary-rbac p s peer handler w i h k =
      elim (under_policy-rbac p s (recovery handler) w i s.policy h) [
        | inl (g, e) ↦
            inl (
              g,
              rw (k, unary) (ap (logged log registry s i) e ∙ logged-recovered s i (handler i w)),
            )
        | inr (reason, n, g, e) ↦ inr (
          reason,
          n,
          g,
          rw (k, unary) (ap (logged log registry s i) e ∙ logged-recovered s i (w, denied reason)),
        )
      ]
