-- ===== src/Rbac/Access.antt =====
-- Who is let in, and what they may do.
use mandau.Base.{
  ◌≡◌, ◌≢◌, refl, ◌↔◌, ◌⊎◌, inl, inr, String, true, none, some, List, arith, eq_iff, Any, exists,
  exists_iff, Bool-cases, Option-cases, Map, get, Result, ok, err, ◌<>◌,
}
use mandau.Plugin.{Identity, Action, AuthRequest, PolicyRequest, PolicyDecision, Value, text_at}
use mandau.Rbac.{
  RbacPlugin, RolesFile, User, Role, new_rbac, init, load_default_roles, role_grants, authorize,
  authenticate, evaluate, decide,
}
use mandau.Rbac.Matching.{Permits, role_has_permission_iff}

-- A role of that name exists and holds a permission for the action.
abbrev pub Grants : RbacPlugin → Action → String → Type 0
Grants p action role_name =
    (role : Role) × (get p.roles role_name ≡ some role) × Any (Permits action) role.permissions

-- The user exists, and one of its roles grants the action.
abbrev pub IsGranted : RbacPlugin → String → Action → Type 0
IsGranted p user_id action =
    (user : User) × (get p.users user_id ≡ some user) × Any (Grants p action) user.roles

role_grants_iff :
    (p : RbacPlugin) (action : Action) (role_name : String)
    → (role_grants p action role_name ≡ true) ↔ Grants p action role_name
unfolding role_grants
role_grants_iff p action r = (forth, back)
  where
    forth : role_grants p action r ≡ true → Grants p action r
    forth h = elim (Option-cases (get p.roles r)) [
      | inl e ↦ absurd (ground arith)
      | inr (role, e) ↦ (role, e, (role_has_permission_iff role action).0 (ground arith))
    ]

    back : Grants p action r → role_grants p action r ≡ true
    back (role, e, g) = rw (e, role_grants) ((role_has_permission_iff role action).1 g)

Grants-iff :
    (p : RbacPlugin) (action : Action) (names : List String)
    → (exists (role_grants p action) names ≡ true) ↔ Any (Grants p action) names
Grants-iff p action names = exists_iff _ _ names (role_grants_iff p action)

-- `Authorize` succeeds exactly when the user exists and one of its roles has a permission whose
-- pattern covers the resource and whose actions allow the action.
pub authorize_iff :
    (p : RbacPlugin) (identity : Identity) (action : Action)
    → (authorize p identity action ≡ ok tt) ↔ IsGranted p identity.user_id action
unfolding authorize
authorize_iff p identity action = (forth, back)
  where
    forth : authorize p identity action ≡ ok tt → IsGranted p identity.user_id action
    forth h = elim (Option-cases (get p.users identity.user_id)) [
      | inl e ↦ absurd (ground arith)
      | inr (user, e) ↦ (user, e, (Grants-iff p action user.roles).0 (ground arith))
    ]

    back : IsGranted p identity.user_id action → authorize p identity action ≡ ok tt
    back (user, e, g) = rw (e, authorize) (rw ((Grants-iff p action user.roles).1 g))

-- A refusal of `Authorize` says why.
authorize_cases :
    (p : RbacPlugin) (identity : Identity) (action : Action)
    → (authorize p identity action ≡ ok tt)
      ⊎ ((e : String) × (authorize p identity action ≡ err e) × (e ≢ ""))
unfolding authorize
authorize_cases p identity action = elim (Option-cases (get p.users identity.user_id)) [
  | inl e ↦
      inr ("user not found", rw (e, authorize), λ q. ground (arith, eq_iff "user not found" ""))
  | inr (user, e) ↦ elim (Bool-cases (exists (role_grants p action) user.roles)) [
    | inl g ↦ inl (rw (e, authorize) (rw g))
    | inr g ↦ inr (
      "permission denied",
      rw (e, authorize) (rw g),
      λ q. ground (arith, eq_iff "permission denied" ""),
    )
  ]
]

-- `Evaluate` never fails, and its decision is to allow exactly what `Authorize` lets through; a
-- denial carries a reason.
pub evaluate_iff :
    (p : RbacPlugin) (req : PolicyRequest)
    → (d : PolicyDecision) × (evaluate p req ≡ ok d)
      × ((d.allowed ≡ true) ↔ IsGranted p req.identity.user_id req.action)
      × ((d.allowed ≡ true) ⊎ (d.reason ≢ ""))
unfolding evaluate
evaluate_iff p req = elim (authorize_cases p req.identity req.action) [
  | inl e ↦ (
    decide (ok tt),
    rw e,
    (λ h. (authorize_iff p req.identity req.action).0 e, λ g. refl),
    inl refl,
  )
  | inr (x, e, n) ↦ (
    decide (err x),
    rw e,
    (λ h. cc, λ g. cc (e, (authorize_iff p req.identity req.action).1 g)),
    inr n,
  )
]

-- Under the default roles there are no users, so nobody is let in.
authenticate-init :
    (unmarshal : String → Result RolesFile) (config : Map Value) (req : AuthRequest)
    → text_at config "roles" ≡ none
    → authenticate (init unmarshal new_rbac config).0 req
      ≡ err ("user not found: " <> req.identity.user_id)
unfolding init new_rbac load_default_roles authenticate get
authenticate-init unmarshal config req e = rw (e, init)

-- Whoever may do anything at all is let in.
authenticate-authorize :
    (p : RbacPlugin) (req : AuthRequest) (action : Action)
    → authorize p req.identity action ≡ ok tt
    → authenticate p req ≡ ok req.identity
unfolding authenticate authorize
authenticate-authorize p req action h = ground arith
