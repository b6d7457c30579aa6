-- ===== src/Core.antt =====
-- pkg/core/server.go: the registry of agents. Every method holds the registry's mutex for its whole
-- body, so a method is one step. Times are nanoseconds, and `now` is an argument. A connection to an
-- agent is a number: `dialed` of them have been made, and `closed` lists those closed, the last first.
pub mod AgentId
pub mod Alive
pub mod Beating
pub mod Connection
pub mod Offline
pub mod Guards
pub mod Held
pub mod Open
pub mod Proxy
pub mod Stacks
mod Tests
use mandau.Base.{
  ℕ, zero, suc, ◌+◌, ◌-◌, ◌*◌, ◌/◌, ◌^◌, String, Bool, true, false, Option, none, some, List, [],
  ◌∷◌, ◌++◌, Map, get, put, exists, ltb, leb, if◌then◌else◌, ◌==◌, Result, ok, err, ◌<>◌,
}
use mandau.Core.AgentId.{generate_agent_id}

pub data AgentStatus : Type 0 where
  online offline error : AgentStatus

pub record AgentConnection : Type 0 where
  pub id : String
  pub hostname : String
  pub address : String
  pub labels : Map String
  pub capabilities : List String
  pub client : Option ℕ
  pub last_seen : ℕ
  pub status : AgentStatus
  pub stacks : List String

pub record Core : Type 0 where
  pub agents : Map AgentConnection
  pub dialed : ℕ
  pub closed : List ℕ

unfoldable pub new_core : Core
new_core = record { agents = []; dialed = 0; closed = [] }

abbrev pub second : ℕ
second = 10 ^ 9

pub record RegisterRequest : Type 0 where
  pub agent_id : String
  pub hostname : String
  pub labels : Map String
  pub capabilities : List String

pub record RegisterResponse : Type 0 where
  pub agent_id : String
  pub heartbeat_interval : ℕ

-- The ID that the agent gives, or a new one if that is empty.
abbrev pub agent_id_for : RegisterRequest → ℕ → String
agent_id_for req now =
    if req.agent_id == "" then generate_agent_id req.hostname (now / second) else req.agent_id

abbrev pub registered_agent : RegisterRequest → ℕ → AgentConnection
registered_agent req now = record {
  id = agent_id_for req now;
  hostname = req.hostname;
  address = "";
  labels = req.labels;
  capabilities = req.capabilities;
  client = none;
  last_seen = now;
  status = online;
  stacks = [];
}

unfoldable pub register_agent : Core → RegisterRequest → ℕ → Core × RegisterResponse
register_agent c req now = (
  record c { agents = put c.agents (agent_id_for req now) (registered_agent req now) },
  record { agent_id = agent_id_for req now; heartbeat_interval = 30 * second },
)

-- What `ListAgents` tells of an agent.
record AgentInfo : Type 0 where
  pub id : String
  pub hostname : String
  pub status : String
  pub labels : Map String
  pub capabilities : List String
  pub last_seen : ℕ

abbrev status_text : AgentStatus → String
status_text online = "online"
status_text offline = "offline"
status_text error = "error"

unfoldable list_agents : Map AgentConnection → List AgentInfo
list_agents [] = []
list_agents ((k, agent) ∷ rest) = info ∷ list_agents rest
  where
    info : AgentInfo
    info = record {
      id = agent.id;
      hostname = agent.hostname;
      status = status_text agent.status;
      labels = agent.labels;
      capabilities = agent.capabilities;
      last_seen = agent.last_seen;
    }

abbrev pub agent_not_found {ℓ} : {A : Type ℓ} → String → Result A
agent_not_found agent_id = err ("agent not found: " <> agent_id)

unfoldable pub heartbeat : Core → String → ℕ → Core × Result String
heartbeat c agent_id now = elim (get c.agents agent_id) [
  | none ↦ (c, agent_not_found agent_id)
  | some agent ↦ (
    record c { agents = put c.agents agent_id (record agent { last_seen = now; status = online }) },
    ok "healthy",
  )
]

-- The loops of `findAgentWithStack`, over the agents in the order of one range.
unfoldable pub find_in : Map AgentConnection → String → Result String
find_in [] stack_id = err ("stack not found on any agent: " <> stack_id)
find_in ((agent_id, agent) ∷ rest) stack_id =
    if exists (λ stack. stack == stack_id) agent.stacks then ok agent_id else find_in rest stack_id

unfoldable pub find_agent_with_stack : Core → String → Result String
unfolding find_in
find_agent_with_stack c stack_id = find_in c.agents stack_id

unfoldable pub update_agent_stacks : Core → String → List String → Core × Result (Unit {0})
update_agent_stacks c agent_id stacks = elim (get c.agents agent_id) [
  | none ↦ (c, agent_not_found agent_id)
  | some agent ↦
      (record c { agents = put c.agents agent_id (record agent { stacks = stacks }) }, ok tt)
]

abbrev pub is_offline : AgentStatus → Bool
is_offline offline = true
is_offline _ = false

-- An agent after one round of `monitorAgents`, first its status and then its connection.
abbrev pub checked_status : ℕ → AgentConnection → AgentConnection
checked_status now agent =
    if ltb (90 * second) (now - agent.last_seen) then record agent { status = offline } else agent

abbrev pub dropped_client : AgentConnection → AgentConnection
dropped_client agent = if is_offline agent.status then record agent { client = none } else agent

abbrev pub client_of : Option ℕ → List ℕ
client_of none = []
client_of (some i) = i ∷ []

-- The connection that the round closes, if the agent is offline.
abbrev pub stale_client : AgentConnection → List ℕ
stale_client agent = if is_offline agent.status then client_of agent.client else []

unfoldable pub monitor_each : ℕ → Map AgentConnection → List ℕ → Map AgentConnection × List ℕ
monitor_each now [] closed = ([], closed)
monitor_each now ((k, agent) ∷ rest) closed =
    let agent' : AgentConnection = checked_status now agent in
    let (rest', closed') = monitor_each now rest (stale_client agent' ++ closed) in
    ((k, dropped_client agent') ∷ rest', closed')

-- One tick of `monitorAgents`.
unfoldable pub monitor_agents : Core → ℕ → Core
unfolding monitor_each
monitor_agents c now =
    let (agents', closed') = monitor_each now c.agents c.closed in
    record c { agents = agents'; closed = closed' }
