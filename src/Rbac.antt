-- ===== src/Rbac.antt =====
-- plugins/auth/rbac/plugin.go. The YAML decoder is an argument; what it decodes is a `RolesFile`.
pub mod Matching
pub mod Access
pub mod Loading
mod Tests
use mandau.Base.{
  ◌≡◌, String, Bool, true, false, ◌||◌, ◌&&◌, Option, none, some, List, [], ◌∷◌, Map, get, put,
  exists, if◌then◌else◌, ◌==◌, Result, ok, err, ◌<>◌,
}
use mandau.Base.Text.{has_prefix, has_suffix, trim_suffix}
use mandau.Plugin.{Identity, Action, AuthRequest, PolicyRequest, PolicyDecision, Value, text_at}

-- `resource` is a pattern such as `stack:*`.
pub record Permission : Type 0 where
  pub resource : String
  pub actions : List String

pub record Role : Type 0 where
  pub name : String
  pub permissions : List Permission

pub record User : Type 0 where
  pub id : String
  pub name : String
  pub roles : List String

pub record RbacPlugin : Type 0 where
  pub name : String
  pub version : String
  pub roles : Map Role
  pub users : Map User

pub record RolesFile : Type 0 where
  pub roles : List Role
  pub users : List User

unfoldable pub new_rbac : RbacPlugin
new_rbac = record { name = "rbac-auth"; version = "1.0.0"; roles = []; users = [] }

abbrev pub admin_role : Role
admin_role = record {
  name = "admin";
  permissions = record { resource = "*"; actions = "*" ∷ [] } ∷ [];
}

abbrev pub operator_role : Role
operator_role = record {
  name = "operator";
  permissions =
      record { resource = "stack:*"; actions = "read" ∷ "write" ∷ [] }
      ∷ record { resource = "container:*"; actions = "read" ∷ "exec" ∷ [] }
      ∷ record { resource = "image:*"; actions = "read" ∷ [] }
      ∷ [];
}

abbrev pub viewer_role : Role
viewer_role = record {
  name = "viewer";
  permissions = record { resource = "*"; actions = "read" ∷ [] } ∷ [];
}

unfoldable pub load_default_roles : RbacPlugin → RbacPlugin
load_default_roles p = record p {
  roles = put (put (put p.roles "admin" admin_role) "operator" operator_role) "viewer" viewer_role;
}

unfoldable pub put_roles : Map Role → List Role → Map Role
put_roles m [] = m
put_roles m (r ∷ rs) = put_roles (put m r.name r) rs

unfoldable pub put_users : Map User → List User → Map User
put_users m [] = m
put_users m (u ∷ us) = put_users (put m u.id u) us

unfoldable pub load_roles_from_yaml :
    (String → Result RolesFile) → RbacPlugin → String → RbacPlugin × Result (Unit {0})
load_roles_from_yaml unmarshal p data' = elim (unmarshal data') [
  | err e ↦ (p, err e)
  | ok config ↦ (
    record p { roles = put_roles p.roles config.roles; users = put_users p.users config.users },
    ok tt,
  )
]

-- The plugin after `Init`, and its error.
unfoldable pub init :
    (String → Result RolesFile) → RbacPlugin → Map Value → RbacPlugin × Result (Unit {0})
init unmarshal p config = elim (text_at config "roles") [
  | none ↦ (load_default_roles p, ok tt)
  | some roles_config ↦ load_roles_from_yaml unmarshal p roles_config
]

unfoldable pub matches_resource : String → String → Bool
matches_resource pattern' resource =
    if pattern' == "*"
    then true
    else if has_suffix pattern' "*"
    then has_prefix resource (trim_suffix pattern' "*")
    else pattern' == resource

unfoldable pub matches_action : List String → String → Bool
matches_action allowed action = exists (λ a. a == "*" || a == action) allowed

unfoldable pub role_has_permission : Role → Action → Bool
role_has_permission role action =
    exists
      (λ (perm : Permission).
        matches_resource perm.resource action.resource && matches_action perm.actions action.action)
      role.permissions

-- One role name of the loop in `Authorize`; an unknown role is skipped.
unfoldable pub role_grants : RbacPlugin → Action → String → Bool
role_grants p action role_name = elim (get p.roles role_name) [
  | none ↦ false
  | some role ↦ role_has_permission role action
]

unfoldable pub authorize : RbacPlugin → Identity → Action → Result (Unit {0})
authorize p identity action = elim (get p.users identity.user_id) [
  | none ↦ err "user not found"
  | some user ↦ if exists (role_grants p action) user.roles then ok tt else err "permission denied"
]

unfoldable pub authenticate : RbacPlugin → AuthRequest → Result Identity
authenticate p req = elim (get p.users req.identity.user_id) [
  | none ↦ err ("user not found: " <> req.identity.user_id)
  | some user ↦ ok req.identity
]

abbrev pub decide : Result (Unit {0}) → PolicyDecision
decide (ok u) = record { allowed = true; reason = ""; obligations = [] }
decide (err e) = record { allowed = false; reason = e; obligations = [] }

-- It never fails.
unfoldable pub evaluate : RbacPlugin → PolicyRequest → Result PolicyDecision
evaluate p req = ok (decide (authorize p req.identity req.action))
