-- ===== src/Core/Proxy.antt =====
-- The stack service of pkg/core/server.go, which passes each request on to the agent it is for.
-- `Remote` is the agents' side: how they answer over a connection. A request, from the lookup of the
-- connection to its last message, is one step.
use mandau.Base.{
  ℕ, zero, suc, String, Bool, Option, List, [], ◌∷◌, map, Result, ok, err, ◌<>◌, in_context, ◌>>=◌,
}
use mandau.Core.{Core, AgentConnection, find_agent_with_stack, update_agent_stacks}
use mandau.Core.Connection.{Dialing, get_agent_connection}

-- The messages of api/v1/agent.proto, with the fields that the core and its callers read.
pub record Stack : Type 0 where
  pub id : String
  pub name : String
  pub path : String

pub record ApplyStackRequest : Type 0 where
  pub agent_id : String
  pub stack_name : String
  pub compose_content : String

pub record GetStackLogsRequest : Type 0 where
  pub agent_id : String
  pub stack_name : String
  pub follow : Bool

pub record OperationEvent : Type 0 where
  pub operation_id : String
  pub message : String
  pub progress : ℕ
  pub error : String

-- What `Recv` gives: the messages, and then the error that ends the stream, "EOF" for a clean end.
pub record Incoming (E : Type 0) : Type 0 where
  pub messages : List E
  pub ending : String

pub record Remote : Type 0 where
  pub list_stacks : Option ℕ → String → Result (List Stack)
  pub get_stack : Option ℕ → String → Result Stack
  pub apply_stack : Option ℕ → ApplyStackRequest → Result (Incoming OperationEvent)
  pub remove_stack : Option ℕ → String → Result (Incoming OperationEvent)
  pub get_stack_logs : Option ℕ → GetStackLogsRequest → Result (Incoming String)

-- The caller's stream takes messages while there is room, and then fails.
pub record Outgoing : Type 0 where
  pub room : ℕ
  pub failure : String

module _ {E : Type 0} where
  -- `for { event, err := agentStream.Recv() ... stream.Send(event) ... }`: the messages sent, and
  -- what the loop returns.
  unfoldable pub relay : List E → String → ℕ → String → List E × Result (Unit {0})
  relay [] ending room failure = ([], err ending)
  relay (e ∷ es) ending zero failure = ([], err failure)
  relay (e ∷ es) ending (suc room) failure =
      let (sent, result) = relay es ending room failure in (e ∷ sent, result)

  unfoldable relayed : Result (Incoming E) → Outgoing → List E × Result (Unit {0})
  unfolding relay
  relayed (err e) out = ([], err ("forward to agent: " <> e))
  relayed (ok incoming) out = relay incoming.messages incoming.ending out.room out.failure

  abbrev forward :
      Core × Result AgentConnection
      → (Option ℕ → Result (Incoming E))
      → Outgoing
      → Core × List E × Result (Unit {0})
  forward (c, err e) call out = (c, [], err ("get agent connection: " <> e))
  forward (c, ok agent) call out =
      let (sent, result) = relayed (call agent.client) out in (c, sent, result)

module _ (remote : Remote) (env : Dialing) where
  abbrev pub noted : String → Core → Result (List Stack) → Core × Result (List Stack)
  noted agent_id c (err e) = (c, err ("forward to agent: " <> e))
  noted agent_id c (ok stacks) =
      ((update_agent_stacks c agent_id (map (λ s. s.id) stacks)).0, ok stacks)

  abbrev pub listed : String → Core × Result AgentConnection → Core × Result (List Stack)
  listed agent_id (c, err e) = (c, err ("get agent connection: " <> e))
  listed agent_id (c, ok agent) = noted agent_id c (remote.list_stacks agent.client agent_id)

  unfoldable pub list_stacks : Core → String → ℕ → Core × Result (List Stack)
  list_stacks c agent_id now = listed agent_id (get_agent_connection env c agent_id now)

  abbrev got : String → Core × Result AgentConnection → Core × Result Stack
  got stack_id (c, err e) = (c, err ("get agent connection: " <> e))
  got stack_id (c, ok agent) =
      (c, in_context "forward to agent: " (remote.get_stack agent.client stack_id))

  unfoldable pub get_stack : Core → String → ℕ → Core × Result Stack
  get_stack c stack_id now = elim (find_agent_with_stack c stack_id) [
    | err e ↦ (c, err ("find agent with stack: " <> e))
    | ok agent_id ↦ got stack_id (get_agent_connection env c agent_id now)
  ]

  unfoldable pub apply_stack :
      Core → ApplyStackRequest → Outgoing → ℕ → Core × List OperationEvent × Result (Unit {0})
  unfolding relayed
  apply_stack c req out now =
      forward (get_agent_connection env c req.agent_id now)
        (λ client. remote.apply_stack client req) out

  unfoldable pub remove_stack :
      Core → String → Outgoing → ℕ → Core × List OperationEvent × Result (Unit {0})
  unfolding relayed
  remove_stack c stack_id out now = elim (find_agent_with_stack c stack_id) [
    | err e ↦ (c, [], err ("find agent with stack: " <> e))
    | ok agent_id ↦
        forward (get_agent_connection env c agent_id now)
          (λ client. remote.remove_stack client stack_id) out
  ]

  unfoldable pub get_stack_logs :
      Core → GetStackLogsRequest → Outgoing → ℕ → Core × List String × Result (Unit {0})
  unfolding relayed
  get_stack_logs c req out now =
      forward (get_agent_connection env c req.agent_id now)
        (λ client. remote.get_stack_logs client req) out

  -- The operation of the first event.
  abbrev first_operation : Incoming OperationEvent → Result String
  first_operation incoming = elim incoming.messages [
    | [] ↦ err incoming.ending
    | e ∷ es ↦ ok e.operation_id
  ]

  abbrev proxied : ApplyStackRequest → Core × Result AgentConnection → Core × Result String
  proxied req (c, err e) = (c, err e)
  proxied req (c, ok agent) =
      (c, in_context "forward to agent: " (remote.apply_stack agent.client req) >>= first_operation)

  unfoldable proxy_stack_operation : Core → String → ApplyStackRequest → ℕ → Core × Result String
  proxy_stack_operation c agent_id req now = proxied req (get_agent_connection env c agent_id now)

unfoldable pub diff_stack : String → Result (Unit {0})
diff_stack req = err "DiffStack not implemented in core proxy - agent ID required in request"
