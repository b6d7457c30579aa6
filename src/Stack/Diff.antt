-- ===== src/Stack/Diff.antt =====
-- `DiffStack`, `computeDiff` and `compareServices` of pkg/agent/stack/manager.go.
use mandau.Base.{
  ℕ, String, Bool, true, false, not, Option, none, some, List, [], ◌∷◌, ◌++◌, Map, get, put, length,
  eqb, if◌then◌else◌, ◌==◌, Result, ok, err, ◌>>=◌, ◌<>◌, in_context,
}
use mandau.Stack.{Service, Project, Stack, Host, parse_compose, load_stack}

pub data DiffAction : Type 0 where
  nothing create update delete : DiffAction

pub record ServiceDiff : Type 0 where
  pub name : String
  pub action : DiffAction
  pub changes : List String

pub record DiffResult : Type 0 where
  pub services : List ServiceDiff
  pub has_changes : Bool

abbrev when : Bool → String → List String
when b s = if b then s ∷ [] else []

unfoldable pub compare_services : Service → Service → List String
compare_services current new =
    when (not (current.image == new.image)) ("image: " <> current.image <> " → " <> new.image)
    ++ when (not (eqb (length current.ports) (length new.ports))) "ports changed"
    ++ when (not (eqb (length current.environment) (length new.environment))) "environment changed"

-- The services by their names.
abbrev by_name : List Service → Map Service → Map Service
by_name [] m = m
by_name (s ∷ ss) m = by_name ss (put m s.name s)

abbrev pub index : Project → Map Service
index project = by_name project.services []

abbrev pub add_change : DiffResult → String → DiffAction → List String → DiffResult
add_change r name action changes = record {
  services = r.services ++ record { name = name; action = action; changes = changes } ∷ [];
  has_changes = true;
}

abbrev pub add_update : DiffResult → String → List String → DiffResult
add_update r name [] = r
add_update r name (c ∷ cs) = add_change r name update (c ∷ cs)

abbrev pub diff_service : DiffResult → String → Service → Option Service → DiffResult
diff_service r name new none = add_change r name create []
diff_service r name new (some current) = add_update r name (compare_services current new)

-- The loop over the new services, and then the loop over the current ones.
abbrev pub diff_new : Map Service → Map Service → DiffResult → DiffResult
diff_new [] current r = r
diff_new ((name, new) ∷ rest) current r =
    diff_new rest current (diff_service r name new (get current name))

abbrev pub delete_if : DiffResult → String → Option Service → DiffResult
delete_if r name none = add_change r name delete []
delete_if r name (some s) = r

abbrev pub diff_deleted : Map Service → Map Service → DiffResult → DiffResult
diff_deleted [] new r = r
diff_deleted ((name, current) ∷ rest) new r =
    diff_deleted rest new (delete_if r name (get new name))

unfoldable pub compute_diff : Project → Project → DiffResult
compute_diff current new =
    diff_deleted (index current) (index new)
      (diff_new (index new) (index current) (record { services = []; has_changes = false }))

abbrev diffed : Host → String → String → Option (Result Stack) → Option (Result DiffResult)
diffed host name text none = none
diffed host name text (some (err e)) = some (err ("load current stack: " <> e))
diffed host name text (some (ok current)) = some (
    in_context "parse new compose: " (parse_compose host name text current.path) >>= λ new.
    ok (compute_diff current.project new))

unfoldable pub diff_stack : Host → String → String → String → ℕ → Option (Result DiffResult)
diff_stack host root name text now = diffed host name text (load_stack host root name now)
