-- ===== src/Rbac/Loading.antt =====
-- What the plugin holds after it has read a file of roles and users.
use mandau.Base.{
  or_else, ◌≡◌, refl, ◌⊎◌, inl, inr, String, Option, none, some, List, [], ◌∷◌, arith,
  if◌then◌else◌, ◌==◌, Map, get, put, get-put, Result, ok, err, Result-cases,
}
use mandau.Plugin.{Value, text_at}
use mandau.Rbac.{
  RbacPlugin, RolesFile, User, Role, put_roles, put_users, load_roles_from_yaml, init,
}

-- The last role of that name in a file, and the last user of that ID.
abbrev last_role : List Role → String → Option Role
last_role [] k = none
last_role (r ∷ rs) k = or_else (last_role rs k) (if r.name == k then some r else none)

abbrev last_user : List User → String → Option User
last_user [] k = none
last_user (u ∷ us) k = or_else (last_user us k) (if u.id == k then some u else none)

get-put_roles :
    (m : Map Role) (rs : List Role) (k : String)
    → get (put_roles m rs) k ≡ or_else (last_role rs k) (get m k)
unfolding put_roles
get-put_roles m [] k = refl
get-put_roles m (r ∷ rs) k =
    ground (arith, get-put_roles (put m r.name r) rs k, get-put m r.name k r)

get-put_users :
    (m : Map User) (us : List User) (k : String)
    → get (put_users m us) k ≡ or_else (last_user us k) (get m k)
unfolding put_users
get-put_users m [] k = refl
get-put_users m (u ∷ us) k = ground (arith, get-put_users (put m u.id u) us k, get-put m u.id k u)

-- `Init` with a text under `roles`. If the text does not decode, the error is passed on and the
-- plugin is as it was; if it does, the last entry of a name or ID in the file wins, and what the file
-- does not name stays.
init_loaded :
    (unmarshal : String → Result RolesFile) (p : RbacPlugin) (config : Map Value) (t : String)
    → text_at config "roles" ≡ some t
    → ((e : String) × (unmarshal t ≡ err e) × (init unmarshal p config ≡ (p, err e)))
      ⊎ ((file : RolesFile) × (unmarshal t ≡ ok file)
          × ((init unmarshal p config).1 ≡ ok tt)
          × ((k : String)
              → (get (init unmarshal p config).0.roles k
                  ≡ or_else (last_role file.roles k) (get p.roles k))
                × (get (init unmarshal p config).0.users k
                    ≡ or_else (last_user file.users k) (get p.users k))))
unfolding init load_roles_from_yaml
init_loaded unmarshal p config t e = elim (Result-cases (unmarshal t)) [
  | inl (x, q) ↦ inl (x, q, rw (e, init) (rw (q, load_roles_from_yaml)))
  | inr (file, q) ↦
      rw (e, init)
        (rw (q, load_roles_from_yaml)
          (inr (
            file,
            refl,
            refl,
            λ k. (get-put_roles p.roles file.roles k, get-put_users p.users file.users k),
          )))
]
