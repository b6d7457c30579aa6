-- ===== src/Agent/Stacks.antt =====
-- The handlers of cmd/mandau-agent/main.go that answer for stacks at once: `ListStacks`, `GetStack`,
-- `DiffStack` and `GetStackLogs`, and the conversions to the messages. `root` is the stack manager's.
use mandau.Base.{
  ℕ, zero, suc, ◌≤◌, ◌<◌, ◌≡◌, refl, ap, String, Bool, Option, none, some, List, [], ◌∷◌, map,
  length, take, Map, Result, ok, err, ◌<>◌, arith,
}
use mandau.Stack.{
  StackState, unknown, running, stopped, error, partial, ContainerInfo, Stack, Host, load_stack,
  list_stacks,
}
use mandau.Stack.Diff.{
  DiffAction, nothing, create, update, delete, ServiceDiff, DiffResult, diff_stack,
}
use mandau.Agent.Interceptors.{internal, not_found, Code, Outcome, returns, fails, panics}

data ProtoStackState : Type 0 where
  stack_state_unknown stack_state_running stack_state_stopped : ProtoStackState
  stack_state_error stack_state_partial : ProtoStackState

abbrev convert_stack_state : StackState → ProtoStackState
convert_stack_state running = stack_state_running
convert_stack_state stopped = stack_state_stopped
convert_stack_state error = stack_state_error
convert_stack_state partial = stack_state_partial
convert_stack_state unknown = stack_state_unknown

record ProtoContainer : Type 0 where
  pub id : String
  pub name : String
  pub image : String
  pub state : String
  pub status : String
  pub labels : Map String

abbrev convert_container : ContainerInfo → ProtoContainer
convert_container c = record {
  id = c.id;
  name = c.name;
  image = c.image;
  state = c.state;
  status = c.status;
  labels = [];
}

abbrev convert_containers : List ContainerInfo → List ProtoContainer
convert_containers cs = map convert_container cs

record ProtoStack : Type 0 where
  pub id : String
  pub name : String
  pub path : String
  pub state : ProtoStackState
  pub containers : List ProtoContainer
  pub created_at : Option ℕ
  pub updated_at : ℕ
  pub labels : Map String

abbrev convert_stack : Stack → ProtoStack
convert_stack s = record {
  id = s.id;
  name = s.name;
  path = s.path;
  state = convert_stack_state s.state;
  containers = convert_containers s.containers;
  created_at = s.created_at;
  updated_at = s.updated_at;
  labels = s.labels;
}

-- What a handler makes of a call of the stack manager: its error gets a code and a context.
abbrev answer {ℓ} :
    {A : Type ℓ} {R : Type 0} → Code → String → (A → R) → Option (Result A) → Outcome R
answer code context f none = panics
answer code context f (some (err e)) = fails code (context <> e)
answer code context f (some (ok a)) = returns (f a)

unfoldable agent_list_stacks : Host → String → ℕ → Outcome (List ProtoStack)
agent_list_stacks host root now =
    answer internal "list stacks: " (map convert_stack) (list_stacks host root now)

unfoldable agent_get_stack : Host → String → String → ℕ → Outcome ProtoStack
agent_get_stack host root stack_id now =
    answer not_found "get stack: " convert_stack (load_stack host root stack_id now)

data ProtoDiffAction : Type 0 where
  diff_action_none diff_action_create diff_action_update diff_action_delete : ProtoDiffAction

abbrev convert_diff_action : DiffAction → ProtoDiffAction
convert_diff_action create = diff_action_create
convert_diff_action update = diff_action_update
convert_diff_action delete = diff_action_delete
convert_diff_action nothing = diff_action_none

record ProtoServiceDiff : Type 0 where
  pub name : String
  pub action : ProtoDiffAction
  pub changes : List String

abbrev convert_service_diff : ServiceDiff → ProtoServiceDiff
convert_service_diff d = record {
  name = d.name;
  action = convert_diff_action d.action;
  changes = d.changes;
}

record DiffStackResponse : Type 0 where
  pub services : List ProtoServiceDiff
  pub has_changes : Bool

abbrev diff_response : DiffResult → DiffStackResponse
diff_response r = record {
  services = map convert_service_diff r.services;
  has_changes = r.has_changes;
}

unfoldable agent_diff_stack : Host → String → String → String → ℕ → Outcome DiffStackResponse
agent_diff_stack host root stack_name content now =
    answer internal "diff stack: " diff_response (diff_stack host root stack_name content now)

-- An entry without its timestamp, which is the time of its sending.
record LogEntry : Type 0 where
  pub stream : String
  pub content : String
  pub container_id : String
  pub service_name : String

abbrev log_entry : String → ContainerInfo → LogEntry
log_entry stack_name c = record {
  stream = "stdout";
  content = "Logs for container " <> c.name <> " in stack " <> stack_name;
  container_id = c.id;
  service_name = c.service;
}

abbrev then_sent : LogEntry → List LogEntry × Result (Unit {0}) → List LogEntry × Result (Unit {0})
then_sent entry (entries, r) = (entry ∷ entries, r)

-- The loop over the containers: the stream takes `room` more entries, and then fails.
abbrev send_logs : String → List ContainerInfo → ℕ → String → List LogEntry × Result (Unit {0})
send_logs stack_name [] room failure = ([], ok tt)
send_logs stack_name (c ∷ cs) zero failure = ([], err failure)
send_logs stack_name (c ∷ cs) (suc room) failure =
    then_sent (log_entry stack_name c) (send_logs stack_name cs room failure)

-- An error of the stream goes out as it is.
abbrev logs_of :
    String → ℕ → String → Option (Result Stack) → List LogEntry × Outcome (Result (Unit {0}))
logs_of stack_name room failure none = ([], panics)
logs_of stack_name room failure (some (err e)) = ([], fails not_found ("get stack: " <> e))
logs_of stack_name room failure (some (ok s)) =
    let (entries, r) = send_logs stack_name s.containers room failure in (entries, returns r)

-- The request's other fields, such as how many lines to send, are not read.
unfoldable agent_get_stack_logs :
    Host → String → String → ℕ → ℕ → String → List LogEntry × Outcome (Result (Unit {0}))
agent_get_stack_logs host root stack_name now room failure =
    logs_of stack_name room failure (load_stack host root stack_name now)

-- `GetStackLogs` sends one entry for each container, in their order, until the stream fails.
send_logs_lem :
    (stack_name : String) (cs : List ContainerInfo) (room : ℕ) (failure : String)
    → ((send_logs stack_name cs room failure).0 ≡ take room (map (log_entry stack_name) cs))
      × (length cs ≤ room → (send_logs stack_name cs room failure).1 ≡ ok tt)
      × (room < length cs → (send_logs stack_name cs room failure).1 ≡ err failure)
send_logs_lem stack_name [] zero failure = (refl, λ h. refl, λ h. absurd (omega arith))
send_logs_lem stack_name [] (suc room) failure = (refl, λ h. refl, λ h. absurd (omega arith))
send_logs_lem stack_name (c ∷ cs) zero failure = (refl, λ h. absurd (omega arith), λ h. refl)
send_logs_lem stack_name (c ∷ cs) (suc room) failure =
    let (sent, good, bad) = send_logs_lem stack_name cs room failure in
    (ap (λ es. log_entry stack_name c ∷ es) sent, λ h. good (omega arith), λ h. bad (omega arith))
