-- ===== src/Agent/Roles.antt =====
-- What the roles of plugins/auth/rbac/plugin.go grant for the calls of the agent.
use Prim.Native.String.{String, [], ◌∷◌}
use text.Mathlib.TextLemmas.{nil-append, cons-append}
use mathlib.Core.List.{List, [], ◌∷◌}
use mandau.Base.{
  ◌≡◌, ◌≢◌, ◌↔◌, ◌⊎◌, ◌∙◌, refl, sym, ap, subst, inl, inr, false, Any, All, ◌<>◌, get, some, ok,
}
use mandau.Base.Text.{has_suffix, trim_suffix}
use mandau.Plugin.{Identity, AuditEntry}
use mandau.Plugin.Registry.{Registry}
use mandau.Rbac.{
  RbacPlugin, User, Permission, operator_role, viewer_role, role_has_permission, matches_resource,
  matches_action,
}
use mandau.Rbac.Matching.{Permits, Covers, role_has_permission_iff}
use mandau.Rbac.Access.{Grants}
use mandau.Agent.Interceptors.{Peer, Setting, Handler, policy_request, identify, denied, unary}
use mandau.Agent.Access.{rbac_policy, with_entry, unary-rbac}

nil_of_append : (s t : String) → "" ≡ s <> t → s ≡ ""
nil_of_append [] t h = refl
nil_of_append (c ∷ s) t h =
    let bad : ◌≡◌ {A = String} "" (c ∷ (s <> t)) = h ∙ cons-append c s t in cc bad

Covers-empty : (p : String) → Covers p "" ↔ ((p ≡ "*") ⊎ (p ≡ ""))
unfolding has_suffix
Covers-empty p = (forth, back)
  where
    forth : Covers p "" → (p ≡ "*") ⊎ (p ≡ "")
    forth (inl (s, rest, e, f)) =
        inl (e ∙ ap (λ r. r <> "*") (nil_of_append s rest f) ∙ nil-append "*")
    forth (inr (e, f)) = inr f

    back : (p ≡ "*") ⊎ (p ≡ "") → Covers p ""
    back (inl e) = inl ("", "", e ∙ sym (nil-append "*"), sym (nil-append ""))
    back (inr e) = inr (ap (λ r. has_suffix r "*") e, e)

-- A permission covers what the agent asks of its policy, whatever the method is, if and only if its
-- resource is "*" or empty and among its actions is "*" or the empty one.
asked_iff :
    (perm : Permission) (identity : Identity) (method : String)
    → Permits (policy_request identity method).action perm ↔ (
        ((perm.resource ≡ "*") ⊎ (perm.resource ≡ ""))
        × Any (λ a. (a ≡ "*") ⊎ (a ≡ "")) perm.actions)
asked_iff perm identity method =
    let (f, g) = Covers-empty perm.resource in (λ h. (f h.0, h.1), λ h. (g h.0, h.1))

operator_asked :
    (identity : Identity) (method : String)
    → role_has_permission operator_role (policy_request identity method).action ≡ false
unfolding role_has_permission matches_resource matches_action has_suffix trim_suffix
operator_asked identity method = refl

viewer_asked :
    (identity : Identity) (method : String)
    → role_has_permission viewer_role (policy_request identity method).action ≡ false
unfolding role_has_permission matches_resource matches_action has_suffix trim_suffix
viewer_asked identity method = refl

-- One of the two default roles that are not admin.
abbrev IsLesser : String → Type 0
IsLesser name = (name ≡ "operator") ⊎ (name ≡ "viewer")

-- The plugin has the two default roles.
abbrev HasLesser : RbacPlugin → Type 0
HasLesser p =
    (get p.roles "operator" ≡ some operator_role) × (get p.roles "viewer" ≡ some viewer_role)

not_granted :
    (p : RbacPlugin) (identity : Identity) (method : String) (names : List String)
    → HasLesser p
    → All IsLesser names
    → Any (Grants p (policy_request identity method).action) names
    → ⊥
not_granted p i method [] d a g = g
not_granted p i method (n ∷ names) (o, v) (inl e, a) (inl (role, found, g)) =
    let same : role ≡ operator_role = cc (sym (ap (get p.roles) e ∙ o) ∙ found) in
    cc (
      sym (operator_asked i method)
      ∙ ap (λ r. role_has_permission r (policy_request i method).action) (sym same)
      ∙ (role_has_permission_iff role (policy_request i method).action).1 g)
not_granted p i method (n ∷ names) (o, v) (inr e, a) (inl (role, found, g)) =
    let same : role ≡ viewer_role = cc (sym (ap (get p.roles) e ∙ v) ∙ found) in
    cc (
      sym (viewer_asked i method)
      ∙ ap (λ r. role_has_permission r (policy_request i method).action) (sym same)
      ∙ (role_has_permission_iff role (policy_request i method).action).1 g)
not_granted p i method (n ∷ names) d (e, a) (inr g) = not_granted p i method names d a g

module _ {P W R : Type 0} (log : P → AuditEntry → W → W) (registry : Registry P) where
  -- Under the `rbac-auth` policy with the default roles, a user all of whose roles are operator and viewer
  -- is denied every unary call of the agent, whatever its method, reads too: no handler is reached, the
  -- world is left as it was but for one audit entry, and the denial has a reason.
  pub unary-lesser :
      (p : RbacPlugin) (s : Setting) (peer : Peer) (handler : Handler W R) (w : W) (i : Identity)
      (user : User)
      → s.policy ≡ some (rbac_policy p)
      → identify s peer ≡ ok i
      → HasLesser p
      → get p.users i.user_id ≡ some user
      → All IsLesser user.roles
      → (reason : String) × (reason ≢ "")
        × (unary log registry s peer handler w ≡ with_entry log registry s i (w, denied reason))
  unary-lesser p s peer handler w i user h k d found a =
      elim (unary-rbac log registry p s peer handler w i h k) [
        | inl ((u, e, g), r) ↦
            let same : u ≡ user = cc (sym e ∙ found) in
            absurd (
              not_granted p i s.method user.roles d a (
                subst (λ (x : User). Any (Grants p (policy_request i s.method).action) x.roles) same
                  g))
        | inr (reason, n, g, e) ↦ (reason, n, e)
      ]
