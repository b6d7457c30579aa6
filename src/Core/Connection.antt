-- ===== src/Core/Connection.antt =====
-- `getAgentConnection` of pkg/core/server.go, and the calls on the registry of agents, each at its
-- time. Certificates and dialling are the operating system's and gRPC's: `Dialing` says how they end.
use mandau.Base.{
  ℕ, suc, ◌-◌, ◌*◌, String, Bool, true, false, Option, none, some, List, [], ◌∷◌, get, put, leb,
  if◌then◌else◌, ◌==◌, Result, ok, err, ◌>>=◌, ◌<>◌, in_context, ◌≤◌,
}
use mandau.Core.{
  online, AgentConnection, Core, second, RegisterRequest, register_agent, heartbeat,
  update_agent_stacks, is_offline, monitor_agents, agent_not_found,
}
use mandau.Core.AgentId.{hostname_of_id}

pub record Dialing : Type 0 where
  pub load_key_pair : Result (Unit {0})
  pub read_ca : Result (Unit {0})
  pub ca_parses : Bool
  pub dial : String → Result (Unit {0})

-- An offline agent whose last heartbeat is at most 30 seconds old counts as online again; another
-- offline agent stays so.
unfoldable pub awake : AgentConnection → ℕ → Option AgentConnection
awake agent now =
    if is_offline agent.status
    then (if leb (now - agent.last_seen) (30 * second)
        then some (record agent { status = online })
        else none)
    else some agent

abbrev pub address_of : String → AgentConnection → String
address_of agent_id agent =
    (if agent.hostname == "" then hostname_of_id agent_id else agent.hostname) <> ":8444"

abbrev pub parsed : Bool → Result (Unit {0})
parsed true = ok tt
parsed false = err "parse CA cert for agent connection"

abbrev pub dial_agent : Dialing → String → String → Result (Unit {0})
dial_agent env agent_id addr =
    in_context "load core cert for agent connection: " env.load_key_pair >>= λ _.
    in_context "load CA cert for agent connection: " env.read_ca >>= λ _.
    parsed env.ca_parses >>= λ _.
    in_context ("dial agent " <> agent_id <> " at " <> addr <> ": ") (env.dial addr)

abbrev pub fresh : Core → String → AgentConnection → AgentConnection
fresh c agent_id agent = record agent {
  client = some c.dialed;
  address = address_of agent_id agent;
}

-- An agent that has no connection gets one, if it can be dialled.
abbrev pub with_client :
    Core → String → AgentConnection → Option ℕ → Result (Unit {0}) → Core × Result AgentConnection
with_client c agent_id agent (some i) r = (c, ok agent)
with_client c agent_id agent none (err e) = (c, err e)
with_client c agent_id agent none (ok u) = (
  record c { agents = put c.agents agent_id (fresh c agent_id agent); dialed = suc c.dialed },
  ok (fresh c agent_id agent),
)

unfoldable pub connected : Dialing → Core → String → AgentConnection → Core × Result AgentConnection
connected env c agent_id agent =
    with_client c agent_id agent agent.client (dial_agent env agent_id (address_of agent_id agent))

unfoldable pub get_agent_connection : Dialing → Core → String → ℕ → Core × Result AgentConnection
unfolding awake connected
get_agent_connection env c agent_id now = elim (get c.agents agent_id) [
  | none ↦ (c, agent_not_found agent_id)
  | some agent ↦ elim (awake agent now) [
    | none ↦ (c, err ("agent offline: " <> agent_id))
    | some agent' ↦
        connected env (record c { agents = put c.agents agent_id agent' }) agent_id agent'
  ]
]

-- The calls that hold the registry's lock.
pub data Call : Type 0 where
  register : RegisterRequest → Call
  beat : String → Call
  connect : Dialing → String → Call
  set_stacks : String → List String → Call
  monitor : Call

unfoldable pub step : Call → ℕ → Core → Core
unfolding register_agent heartbeat get_agent_connection update_agent_stacks monitor_agents
step (register req) now c = (register_agent c req now).0
step (beat agent_id) now c = (heartbeat c agent_id now).0
step (connect env agent_id) now c = (get_agent_connection env c agent_id now).0
step (set_stacks agent_id stacks) now c = (update_agent_stacks c agent_id stacks).0
step monitor now c = monitor_agents c now

-- The calls with their times, the first one first, and what each leaves.
unfoldable pub run : List (Call × ℕ) → Core → Core
run [] c = c
run ((call, now) ∷ calls) c = run calls (step call now c)

-- The times do not go back from `start`, and end by `now`.
abbrev pub Timed : ℕ → List (Call × ℕ) → ℕ → Type 0
Timed start [] now = start ≤ now
Timed start ((call, at) ∷ calls) now = (start ≤ at) × Timed at calls now
