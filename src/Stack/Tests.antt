-- ===== src/Stack/Tests.antt =====
-- The theorems on the stacks at a small machine.
use mandau.Base.{
  ◌≤◌, ◌≡◌, ◌≢◌, ◌↔◌, refl, String, true, false, none, some, List, [], ◌∷◌, map, length, All, get,
  ok, ◌<>◌,
}
use mandau.Base.Int.{pos}
use mandau.Operation.{stack_apply, pending, cancelled, Operation, Manager, new_manager}
use mandau.Operation.Updates.{cancel}
use mandau.Operation.Calls.{run}
use mandau.Operation.Listeners.{subscribe}
use mandau.Operation.Invariant.{Inv, Inv-operations}
use mandau.Operation.Safety.{new_manager-Inv}
use mandau.Operation.Delivery.{Report, now_running, call_of}
use mandau.Stack.{Service, Project, missing}
use mandau.Stack.Diff.{compute_diff, index}
use mandau.Stack.Execution.{Machine, ApplyStackRequest, execute_apply}
use mandau.Stack.Changes.{Kept, compute_diff_iff}
use mandau.Stack.Cancelled.{cancel-apply}
use mandau.Stack.Reports.{
  final_state, last_state, outcome, apply_result, execute_apply_lem, apply-last_state,
}

abbrev service : String → String → Service
service name image = record { name = name; image = image; ports = []; environment = [] }

abbrev old_project : Project
old_project = record {
  name = "shop";
  services = service "web" "nginx:1" ∷ service "db" "postgres" ∷ [];
}

abbrev new_project : Project
new_project = record {
  name = "shop";
  services = service "web" "nginx:2" ∷ service "cache" "redis" ∷ [];
}

compute_diff_iff_example : ((compute_diff old_project new_project).has_changes ≡ false) ↔ (
    All (Kept (index old_project)) (index new_project)
    × All (λ e. get (index new_project) e.0 ≢ none) (index old_project))
compute_diff_iff_example = compute_diff_iff old_project new_project

-- A machine on which everything works.
abbrev working : Machine
working = record {
  host = record {
    join = λ a b. a <> "/" <> b;
    read_dir = λ dir. ok [];
    stat = λ path. missing;
    read_file = λ path. ok "";
    unmarshal = λ t. ok tt;
    load = λ t dir. ok old_project;
    container_list = λ label. ok [];
  };
  mkdir_all = λ dir. ok tt;
  write_file = λ path. ok tt;
  remove_all = λ path. ok tt;
  image_pull = λ image. ok tt;
  run_command = λ cmd. ok "done";
}

abbrev request : ApplyStackRequest
request = record {
  stack_name = "shop";
  compose_content = "services: {}";
  env_vars = [];
  force_recreate = false;
  services = [];
  pull_images = true;
}

execute_apply_lem_example :
    (final_state pending (execute_apply working request "/srv/shop" 2)
      ≡ outcome (apply_result working request "/srv/shop"))
    × (length (execute_apply working request "/srv/shop" 2) ≤ 6)
execute_apply_lem_example = execute_apply_lem pending working request "/srv/shop" 2

abbrev deploy : Operation
deploy = record {
  id = "op-1";
  op_type = stack_apply;
  state = pending;
  created_at = 1;
  completed_at = none;
  error = none;
  progress = pos 0;
  metadata = ("stack", "shop") ∷ [];
  has_context = true;
}

abbrev one_operation : Manager
one_operation = record new_manager { operations = ("op-1", deploy) ∷ [] }

one_operation-Inv : Inv one_operation
one_operation-Inv = Inv-operations new_manager (("op-1", deploy) ∷ []) new_manager-Inv

apply-last_state_example :
    (m1 : Manager) × (m2 : Manager) × (m3 : Manager) × (run one_operation [] ≡ some m1)
    × (subscribe m1 "op-1" 2 ≡ some (m2, m1.next))
    × (run m2 (map (call_of "op-1") (execute_apply working request "/srv/shop" 2)) ≡ some m3)
    × (last_state pending (m3.channels m1.next).buffer
        ≡ outcome (apply_result working request "/srv/shop"))
unfolding get
apply-last_state_example =
    apply-last_state one_operation "op-1" deploy working request "/srv/shop" 2 []
      (execute_apply working request "/srv/shop" 2) 2 one_operation-Inv refl refl

-- The calls after the first one.
abbrev rest_of : List Report → List Report
rest_of [] = []
rest_of (r ∷ rs) = rs

abbrev calls : List Report
calls = execute_apply working request "/srv/shop" 2

cancel-apply_example :
    (m1 : Manager) × (m2 : Manager) × (m3 : Manager) × (op2 : Operation) × (op3 : Operation) × (run
        one_operation
        (map (call_of "op-1") (now_running 2 ∷ []))
      ≡ some m1)
    × (cancel m1 "op-1" 3 ≡ some (m2, ok tt))
    × (get m2.operations "op-1" ≡ some op2)
    × (op2.state ≡ cancelled)
    × (run m2 (map (call_of "op-1") (rest_of calls)) ≡ some m3)
    × (get m3.operations "op-1" ≡ some op3)
    × (op3.state ≡ outcome (apply_result working request "/srv/shop"))
unfolding get execute_apply
cancel-apply_example =
    cancel-apply one_operation "op-1" deploy working request "/srv/shop" 2 3 (now_running 2 ∷ [])
      (rest_of calls) one_operation-Inv refl refl refl
