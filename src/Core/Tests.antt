-- ===== src/Core/Tests.antt =====
-- The theorems on the core at small histories.
use mandau.Base.{
  ◌⊎◌, ℕ, ◌<◌, ◌+◌, ◌*◌, ◌^◌, ◌≡◌, refl, inl, String, true, none, some, List, [], ◌∷◌, get, put,
  arith, ok, err, ◌<>◌, take, length, leb, if◌then◌else◌,
}
use mandau.Plugin.{AuditEntry}
use mandau.Plugin.Registry.{Registry}
use mandau.Rbac.{RbacPlugin, User, authenticate}
use mandau.Agent.Interceptors.{Setting, Certificate, Handler, over_tls, returns, fails, unknown}
use mandau.Core.Guards.{named, core_unary, with_core_entry, core_unary-rbac}
use mandau.Core.{
  online, offline, AgentConnection, Core, new_core, RegisterRequest, register_agent, monitor_agents,
  monitor_each, find_agent_with_stack,
}
use mandau.Core.AgentId.{generate_agent_id, hostname_of_id}
use mandau.Core.AgentId.RoundTrip.{hostname-generate}
use mandau.Core.Connection.{
  Dialing, Call, beat, register, connect, monitor, step, run, get_agent_connection, awake,
  connected,
}
use mandau.Core.Offline.{run-offline, get_agent_connection-offline}
use mandau.Core.Alive.{life, lives, lived, run-lived}
use mandau.Core.Beating.{Kept, run-online}
use mandau.Core.Held.{times}
use mandau.Core.Open.{run-client}
use mandau.Core.Proxy.{Stack, Remote, relay, list_stacks}
use mandau.Core.Stacks.{list_stacks-find, relay_lem}

abbrev from_web : RegisterRequest
from_web = record { agent_id = "agent-web"; hostname = "web"; labels = []; capabilities = [] }

-- Every dial works.
abbrev all_well : Dialing
all_well = record { load_key_pair = ok tt; read_ca = ok tt; ca_parses = true; dial = λ addr. ok tt }

abbrev web_agent : AgentConnection
web_agent = record {
  id = "agent-web";
  hostname = "web";
  address = "";
  labels = [];
  capabilities = [];
  client = none;
  last_seen = 0;
  status = online;
  stacks = [];
}

abbrev silent : List (Call × ℕ)
silent = (register from_web, 0) ∷ (monitor, 100 * 10 ^ 9) ∷ []

abbrev silent_agent : AgentConnection
silent_agent = record web_agent { status = offline }

run-offline_example :
    (silent_agent.last_seen + 90 * 10 ^ 9 < 101 * 10 ^ 9) × (silent_agent.client ≡ none)
unfolding get put run step register_agent monitor_agents monitor_each new_core
run-offline_example =
    run-offline silent (101 * 10 ^ 9) "agent-web" silent_agent
      (omega arith, (omega arith, omega arith)) refl refl

get_agent_connection-offline_example :
    get_agent_connection all_well (run silent new_core) "agent-web" (101 * 10 ^ 9)
    ≡ (run silent new_core, err ("agent offline: " <> "agent-web"))
unfolding get put run step register_agent monitor_agents monitor_each new_core
get_agent_connection-offline_example =
    get_agent_connection-offline silent (101 * 10 ^ 9) "agent-web" silent_agent all_well
      (omega arith, (omega arith, omega arith)) refl refl

abbrev dialled : List (Call × ℕ)
dialled = (register from_web, 0) ∷ (connect all_well "agent-web", 1) ∷ []

abbrev dialled_agent : AgentConnection
dialled_agent = record web_agent { client = some 0; address = "web" <> ":8444" }

run-client_example :
    (0 < (run dialled new_core).dialed) × (times 0 (run dialled new_core).closed ≡ 0)
unfolding get put run step register_agent get_agent_connection awake connected new_core
run-client_example = run-client dialled "agent-web" dialled_agent 0 refl refl

abbrev one_agent : Core
one_agent = record {
  agents = ("agent-web", record web_agent { stacks = "shop" ∷ [] }) ∷ [];
  dialed = 0;
  closed = [];
}

abbrev shop : Stack
shop = record { id = "shop"; name = "shop"; path = "/srv/stacks/shop" }

-- Agents that have one stack.
abbrev one_stack : Remote
one_stack = record {
  list_stacks = λ client agent_id. ok (shop ∷ []);
  get_stack = λ client stack_id. ok shop;
  apply_stack = λ client req. ok (record { messages = []; ending = "EOF" });
  remove_stack = λ client stack_id. ok (record { messages = []; ending = "EOF" });
  get_stack_logs = λ client req. ok (record { messages = []; ending = "EOF" });
}

list_stacks-find_example :
    (found : String) × (find_agent_with_stack
        (list_stacks one_stack all_well one_agent "agent-web" 5).0
        "shop"
      ≡ ok found)
unfolding get put get_agent_connection awake connected list_stacks
list_stacks-find_example =
    list_stacks-find one_stack all_well one_agent "agent-web" "shop" 5 (shop ∷ []) refl (inl refl)

abbrev two_lines : List String
two_lines = "one" ∷ "two" ∷ []

relay_lem_example :
    relay two_lines "EOF" 5 "broken pipe"
    ≡ (take 5 two_lines, err (if leb (length two_lines) 5 then "EOF" else "broken pipe"))
relay_lem_example = relay_lem two_lines "EOF" 5 "broken pipe"

hostname-generate_example : hostname_of_id (generate_agent_id "web-1" 1700000000) ≡ "web-1"
hostname-generate_example = hostname-generate "web-1" 1700000000

abbrev users : RbacPlugin
users = record {
  name = "rbac-auth";
  version = "1.0.0";
  roles = [];
  users = ("ada", record { id = "ada"; name = "Ada"; roles = [] }) ∷ [];
}

abbrev listing : Setting
listing = record {
  auth = some (authenticate users);
  policy = none;
  agent_id = "";
  method = "/mandau.v1.CoreService/ListAgents";
  start = 1;
  duration = 2;
}

abbrev of_ada : Certificate
of_ada = record { common_name = "ada"; raw = [] }

abbrev one_log : Registry String
one_log = record { plugins = []; auth = []; audit = "file-audit" ∷ []; secrets = []; policy = [] }

abbrev keep : String → AuditEntry → List AuditEntry → List AuditEntry
keep plugin entry entries = entry ∷ entries

abbrev greet : Handler (List AuditEntry) String
greet identity entries = (entries, returns identity.user_id)

core_unary-rbac_example :
    ((user : User) × (get users.users "ada" ≡ some user)
      × (core_unary keep one_log listing (over_tls ((of_ada ∷ []) ∷ [])) greet []
          ≡ with_core_entry keep one_log listing (named "ada") [] (returns "ada")))
    ⊎ ((get users.users "ada" ≡ none)
        × (core_unary keep one_log listing (over_tls ((of_ada ∷ []) ∷ [])) greet []
            ≡ ([], fails unknown ("auth failed: " <> "user not found: " <> "ada"))))
core_unary-rbac_example = core_unary-rbac keep one_log users listing of_ada [] [] greet [] refl

run-lived_example : life (run silent new_core) "agent-web" ≡ some (0, offline)
unfolding get put run step register_agent monitor_agents monitor_each new_core lives lived
run-lived_example =
    run-lived silent (101 * 10 ^ 9) "agent-web" (omega arith, (omega arith, omega arith))

-- A heartbeat 80 seconds after the registration, and a tick 60 seconds later.
abbrev kept_up : List (Call × ℕ)
kept_up = (beat "agent-web", 80 * 10 ^ 9) ∷ (monitor, 140 * 10 ^ 9) ∷ []

run-online_example :
    (a : AgentConnection) × (get
        (run ((register from_web, 0) ∷ kept_up) new_core).agents
        "agent-web"
      ≡ some a)
    × (a.status ≡ online)
unfolding lived lives Kept
run-online_example =
    run-online [] kept_up from_web 0 (140 * 10 ^ 9)
      (omega arith, (omega arith, (omega arith, omega arith))) (omega arith, tt)
