-- ===== src/Agent/Tests.antt =====
-- The theorems on the agent at small calls.
use mandau.Base.{
  ◌+◌, ◌≡◌, ◌≢◌, ◌⊎◌, inl, refl, String, true, false, none, some, List, [], ◌∷◌, map, length, get,
  ok, err, ◌<>◌,
}
use mandau.Base.Int.{pos}
use mandau.Operation.{stack_apply, pending, Operation, Manager, new_manager}
use mandau.Operation.Calls.{run}
use mandau.Operation.Listeners.{subscribe}
use mandau.Operation.Invariant.{Inv-operations}
use mandau.Operation.Safety.{new_manager-Inv}
use mandau.Operation.Delivery.{call_of}
use mandau.Plugin.{Identity, AuditEntry}
use mandau.Plugin.Registry.{Registry}
use mandau.Rbac.{RbacPlugin, User, admin_role, operator_role, viewer_role}
use mandau.Rbac.Access.{IsGranted}
use mandau.Stack.{missing}
use mandau.Stack.Execution.{Machine, ApplyStackRequest, execute_apply}
use mandau.Agent.Interceptors.{
  Peer, over_tls, panics, Setting, Handler, policy_request, identity_of, identify, extract_identity,
  denied, unary, streaming, fails, unauthenticated,
}
use mandau.Agent.Access.{rbac_policy, with_entry, settled, streaming_lem, unary-rbac}
use mandau.Agent.Roles.{unary-lesser}
use mandau.Agent.Follow.{nothing_yet, follow}
use mandau.Agent.Following.{apply-follow}

abbrev ada : User
ada = record { id = "ada"; name = "Ada"; roles = "operator" ∷ [] }

abbrev two_roles : RbacPlugin
two_roles = record {
  name = "rbac-auth";
  version = "1.0.0";
  roles = ("admin", admin_role) ∷ ("operator", operator_role) ∷ [];
  users = ("ada", ada) ∷ [];
}

abbrev setting : Setting
setting = record {
  auth = none;
  policy = some (rbac_policy two_roles);
  agent_id = "agent-web";
  method = "/mandau.v1.StackService/ListStacks";
  start = 1;
  duration = 2;
}

-- One audit plugin, which keeps the entries.
abbrev one_log : Registry String
one_log = record { plugins = []; auth = []; audit = "file-audit" ∷ []; secrets = []; policy = [] }

abbrev keep : String → AuditEntry → List AuditEntry → List AuditEntry
keep plugin entry entries = entry ∷ entries

abbrev from_ada : Peer
from_ada = over_tls ((record { common_name = "ada"; raw = [] } ∷ []) ∷ [])

abbrev as_ada : Identity
as_ada = identity_of (record { common_name = "ada"; raw = [] })

-- A handler that panics.
abbrev broken : Handler (List AuditEntry) String
broken identity entries = (entries, panics)

streaming_lem_example :
    ((i : Identity) × (identify setting from_ada ≡ ok i)
      × (streaming keep one_log setting from_ada broken []
          ≡ with_entry keep one_log setting i ((broken i []).0, settled (broken i []).1)))
    ⊎ ((e : String) × (identify setting from_ada ≡ err e)
        × (streaming keep one_log setting from_ada broken []
            ≡ ([], fails unauthenticated "authentication failed")))
streaming_lem_example = streaming_lem keep one_log setting from_ada broken []

unary-rbac_example :
    (IsGranted two_roles "ada" (policy_request as_ada setting.method).action
      × (unary keep one_log setting from_ada broken []
          ≡ with_entry keep one_log setting as_ada
              ((broken as_ada []).0, settled (broken as_ada []).1)))
    ⊎ ((reason : String) × (reason ≢ "")
        × (IsGranted two_roles "ada" (policy_request as_ada setting.method).action → ⊥)
        × (unary keep one_log setting from_ada broken []
            ≡ with_entry keep one_log setting as_ada ([], denied reason)))
unfolding identify extract_identity
unary-rbac_example = unary-rbac keep one_log two_roles setting from_ada broken [] as_ada refl refl

abbrev default_roles : RbacPlugin
default_roles = record two_roles {
  roles = ("operator", operator_role) ∷ ("viewer", viewer_role) ∷ [];
}

unary-lesser_example :
    (reason : String) × (reason ≢ "")
    × (unary keep one_log
          (record setting { policy = some (rbac_policy default_roles) })
          from_ada
          broken
          []
        ≡ with_entry keep one_log
            (record setting { policy = some (rbac_policy default_roles) })
            as_ada
            ([], denied reason))
unfolding identify extract_identity get
unary-lesser_example =
    unary-lesser keep one_log default_roles
      (record setting { policy = some (rbac_policy default_roles) }) from_ada broken [] as_ada ada
      refl refl (refl, refl) refl (inl refl, tt)

abbrev deploy : Operation
deploy = record {
  id = "op-1";
  op_type = stack_apply;
  state = pending;
  created_at = 1;
  completed_at = none;
  error = none;
  progress = pos 0;
  metadata = ("stack", "shop") ∷ [];
  has_context = true;
}

abbrev one_operation : Manager
one_operation = record new_manager { operations = ("op-1", deploy) ∷ [] }

-- A machine on which the command fails.
abbrev failing : Machine
failing = record {
  host = record {
    join = λ a b. a <> "/" <> b;
    read_dir = λ dir. ok [];
    stat = λ path. missing;
    read_file = λ path. ok "";
    unmarshal = λ t. ok tt;
    load = λ t dir. ok (record { name = "shop"; services = [] });
    container_list = λ label. ok [];
  };
  mkdir_all = λ dir. ok tt;
  write_file = λ path. ok tt;
  remove_all = λ path. ok tt;
  image_pull = λ image. ok tt;
  run_command = λ cmd. err "exit status 1";
}

abbrev request : ApplyStackRequest
request = record {
  stack_name = "shop";
  compose_content = "services: {}";
  env_vars = [];
  force_recreate = true;
  services = "web" ∷ [];
  pull_images = false;
}

apply-follow_example :
    (m1 : Manager) × (m2 : Manager) × (m3 : Manager) × (run one_operation [] ≡ some m1)
    × (subscribe m1 "op-1" 2 ≡ some (m2, m1.next))
    × (run m2 (map (call_of "op-1") (execute_apply failing request "/srv/shop" 2)) ≡ some m3)
    × ((follow
          (m3.channels m1.next).buffer
          nothing_yet
          (length (m3.channels m1.next).buffer + 3)
          "broken pipe").1
        ≡ some (ok tt))
unfolding get
apply-follow_example =
    apply-follow one_operation "op-1" deploy failing request "/srv/shop" 2 []
      (execute_apply failing request "/srv/shop" 2) 2 nothing_yet 3 "broken pipe"
      (Inv-operations new_manager (("op-1", deploy) ∷ []) new_manager-Inv) refl refl
