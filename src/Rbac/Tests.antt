-- ===== src/Rbac/Tests.antt =====
-- The theorems on the roles and users at a small configuration.
use mandau.Base.{◌≡◌, ◌↔◌, [], ◌∷◌, ok}
use mandau.Plugin.{Identity, Action}
use mandau.Rbac.{RbacPlugin, User, admin_role, operator_role, authorize}
use mandau.Rbac.Access.{IsGranted, authorize_iff}

abbrev ada : User
ada = record { id = "ada"; name = "Ada"; roles = "operator" ∷ [] }

abbrev two_roles : RbacPlugin
two_roles = record {
  name = "rbac-auth";
  version = "1.0.0";
  roles = ("admin", admin_role) ∷ ("operator", operator_role) ∷ [];
  users = ("ada", ada) ∷ [];
}

abbrev as_ada : Identity
as_ada = record {
  user_id = "ada";
  device_id = "ada";
  roles = [];
  attributes = [];
  certificate = [];
}

abbrev write_web : Action
write_web = record { method = "ApplyStack"; action = "write"; resource = "stack:web" }

authorize_iff_example :
    (authorize two_roles as_ada write_web ≡ ok tt) ↔ IsGranted two_roles "ada" write_web
authorize_iff_example = authorize_iff two_roles as_ada write_web
