-- ===== src/Rbac/Matching.antt =====
-- What the resource patterns and the action lists of a permission mean.
use mandau.Base.{
  ◌≡◌, ◌≢◌, refl, sym, ◌∙◌, ◌↔◌, ◌⊎◌, inl, inr, String, Bool, true, false, ◌&&◌, List, arith,
  eq_iff, Any, exists_iff, Bool-cases, ◌==◌, ◌<>◌,
}
use mandau.Base.Text.{
  has_prefix, has_suffix, trim_suffix, trim_suffix-append, has_suffix-append, trim_suffix_of_append,
  has_prefix_iff,
}
use text.Mathlib.TextLemmas.{nil-append}
use mandau.Plugin.{Action}
use mandau.Rbac.{Permission, Role, matches_resource, matches_action, role_has_permission}

-- A pattern `s*` covers what begins with `s`, and any other pattern itself alone.
abbrev pub Covers : String → String → Type 0
Covers pattern' resource =
    ((s : String) × (rest : String) × (pattern' ≡ s <> "*") × (resource ≡ s <> rest))
    ⊎ ((has_suffix pattern' "*" ≡ false) × (pattern' ≡ resource))

matches→Covers : (p r : String) → matches_resource p r ≡ true → Covers p r
unfolding matches_resource
matches→Covers p r h = elim (Bool-cases (p == "*")) [
  | inl e ↦ inl ("", r, (eq_iff p "*").0 e ∙ sym (nil-append "*"), sym (nil-append r))
  | inr e ↦ elim (Bool-cases (has_suffix p "*")) [
    | inl f ↦
        let (rest, q) = (has_prefix_iff r (trim_suffix p "*")).0 (ground arith) in
        inl (trim_suffix p "*", rest, sym (trim_suffix-append p "*" f), sym q)
    | inr f ↦ inr (f, (eq_iff p r).0 (ground arith))
  ]
]

Covers→matches : (p r : String) → Covers p r → matches_resource p r ≡ true
unfolding matches_resource
Covers→matches p r (inl (s, rest, e, q)) =
    let suffix : has_suffix p "*" ≡ true = rw e (has_suffix-append s "*") in
    let trimmed : trim_suffix p "*" ≡ s = rw e (trim_suffix_of_append s "*" star_ne) in
    let prefix : has_prefix r (trim_suffix p "*") ≡ true =
      (has_prefix_iff r (trim_suffix p "*")).1 (rest, rw trimmed (sym q)) in
    ground arith
  where
    star_ne : ◌≢◌ {A = String} "*" ""
    star_ne e = ground (arith, eq_iff "*" "")
Covers→matches p r (inr (f, e)) = ground (arith, eq_iff p r)

-- `matchesResource` decides exactly this.
matches_resource_iff :
    (pattern' resource : String)
    → (matches_resource pattern' resource ≡ true) ↔ Covers pattern' resource
matches_resource_iff p r = (matches→Covers p r, Covers→matches p r)

-- An action list allows the actions that it names, or all of them by `*`.
abbrev Allows : List String → String → Type 0
Allows actions action = Any (λ a. (a ≡ "*") ⊎ (a ≡ action)) actions

matches_action_iff :
    (allowed : List String) (action : String)
    → (matches_action allowed action ≡ true) ↔ Allows allowed action
unfolding matches_action
matches_action_iff allowed action = exists_iff _ _ allowed λ a. (
  λ h. ground (arith, eq_iff a "*", eq_iff a action),
  λ h. ground (arith, eq_iff a "*", eq_iff a action),
)

-- A permission that covers the resource and allows the action.
abbrev pub Permits : Action → Permission → Type 0
Permits action perm = Covers perm.resource action.resource × Allows perm.actions action.action

both_true :
    (a b : Bool) {P Q : Type 0} → (a ≡ true) ↔ P → (b ≡ true) ↔ Q → ((a && b) ≡ true) ↔ (P × Q)
both_true true b p q = (λ h. (p.0 refl, q.0 h), λ h. q.1 h.1)
both_true false b p q = (λ h. cc, λ h. p.1 h.0)

pub role_has_permission_iff :
    (role : Role) (action : Action)
    → (role_has_permission role action ≡ true) ↔ Any (Permits action) role.permissions
unfolding role_has_permission
role_has_permission_iff role action = exists_iff _ _ role.permissions λ perm.
    both_true _ _ (matches_resource_iff perm.resource action.resource)
      (matches_action_iff perm.actions action.action)
