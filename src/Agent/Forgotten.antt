-- ===== src/Agent/Forgotten.antt =====
-- The heartbeats of cmd/mandau-agent/main.go against the registry of pkg/core/server.go.
use mandau.Base.{
  ℕ, ◌≡◌, refl, ap, ◌∙◌, String, true, false, Option, none, some, List, [], ◌∷◌, if◌then◌else◌,
  Result, ok, err, ◌<>◌, get, put, ◌==◌, ◌/◌,
}
use mandau.Base.Text.{contains, clashes, contains-clashes}
use mandau.Core.AgentId.{generate_agent_id}
use mandau.Config.AgentStart.{AgentSettings}
use mandau.Core.{
  online, AgentConnection, Core, RegisterRequest, register_agent, heartbeat, agent_id_for,
  registered_agent, agent_not_found, second,
}
use mandau.Agent.Heartbeats.{
  RpcError, other_code, Network, linked, should_reconnect, register_request, beat_once, beats,
  send_heartbeat, reconnect_to_server, register_with_server, after_beat, reconnect_if, reconnected,
}

-- How gRPC brings an error of the core to the agent, and what is otherwise known of a moment.
pub record Reach : Type 0 where
  pub now : ℕ
  pub create : Result (Unit {0})
  pub wire : String → RpcError
  pub closing : RpcError

abbrev carried {ℓ} : {A : Type ℓ} → (String → RpcError) → Core × Result A → Core × Option RpcError
carried wire (c, ok a) = (c, none)
carried wire (c, err e) = (c, some (wire e))

-- The core is reached: the calls are those of its registry.
unfoldable pub through : Reach → Network Core
through r = record {
  create = r.create;
  register = λ req c. ((register_agent c req r.now).0, none);
  beat = λ id c. carried r.wire (heartbeat c id r.now);
  closing = r.closing;
}

abbrev networks : List Reach → List (Network Core)
networks [] = []
networks (r ∷ rs) = through r ∷ networks rs

-- The error of a handler that is no status of gRPC comes as one of code Unknown with its text.
abbrev AsUnknown : List Reach → Type 0
AsUnknown [] = Unit {0}
AsUnknown (r ∷ rs) =
    ((e : String)
      → r.wire e ≡ record { code = other_code; message = "rpc error: code = Unknown desc = " <> e })
    × AsUnknown rs

-- The ID does not read like a broken connection.
abbrev PlainId : String → Type 0
PlainId id =
    (contains id "connection refused" ≡ false)
    × (contains id "connection reset" ≡ false)
    × (contains id "broken pipe" ≡ false)

found_in_message :
    (t id : String)
    → clashes "rpc error: code = Unknown desc = " t ≡ true
    → clashes "agent not found: " t ≡ true
    → contains id t ≡ false
    → contains ("rpc error: code = Unknown desc = " <> ("agent not found: " <> id)) t ≡ false
found_in_message t id a b h =
    contains-clashes "rpc error: code = Unknown desc = " t ("agent not found: " <> id) a
    ∙ contains-clashes "agent not found: " t id b
    ∙ h

should_reconnect-unknown :
    (id : String)
    → PlainId id
    → should_reconnect (record {
      code = other_code;
      message = "rpc error: code = Unknown desc = " <> ("agent not found: " <> id);
    })
      ≡ false
unfolding should_reconnect clashes
should_reconnect-unknown id (f, g, h) =
    rw
      (
        found_in_message "connection refused" id refl refl f,
        found_in_message "connection reset" id refl refl g,
        found_in_message "broken pipe" id refl refl h,
      )
      refl

unknown_beat :
    (c : Core) (id : String) (now : ℕ)
    → get c.agents id ≡ none
    → heartbeat c id now ≡ (c, agent_not_found id)
unfolding heartbeat
unknown_beat c id now g = rw (g, heartbeat) refl

beat_once-forgotten :
    (r : Reach) (cfg : AgentSettings) (c : Core)
    → get c.agents cfg.agent_id ≡ none
    → should_reconnect (r.wire ("agent not found: " <> cfg.agent_id)) ≡ false
    → beat_once (through r) cfg linked c ≡ (linked, c)
unfolding beat_once send_heartbeat through
beat_once-forgotten r cfg c g h =
    ap (λ x. after_beat (through r) cfg linked (carried r.wire x))
      (unknown_beat c cfg.agent_id r.now g)
    ∙ ap (λ b. reconnect_if b (through r) cfg linked c) h

-- When the core does not know the agent any more, as after a restart of the core, then the heartbeats
-- of an agent that reaches it change nothing, however many there are: the agent does not register
-- again, since it does not take the core's "agent not found" for a broken connection. It holds if gRPC
-- brings an error of a handler as one of code Unknown with its text, and the ID itself has none of the
-- texts by which the agent knows a broken connection.
pub beats-forgotten :
    (reaches : List Reach) (cfg : AgentSettings) (c : Core)
    → get c.agents cfg.agent_id ≡ none
    → PlainId cfg.agent_id
    → AsUnknown reaches
    → beats (networks reaches) cfg linked c ≡ (linked, c)
unfolding beats
beats-forgotten [] cfg c g p h = refl
beats-forgotten (r ∷ rs) cfg c g p h =
    ap (λ x. beats (networks rs) cfg x.0 x.1)
      (beat_once-forgotten r cfg c g (
        ap should_reconnect (h.0 ("agent not found: " <> cfg.agent_id))
        ∙ should_reconnect-unknown cfg.agent_id p))
    ∙ beats-forgotten rs cfg c g p h.1

-- After a tick at which the heartbeat fails as it does if the core is not reached, and a new
-- connection can be made to a core that is there again, the core holds the agent online and last seen
-- at that moment, but without labels, whatever labels the agent is configured with.
pub beat_once-reconnect :
    (r : Reach) (cfg : AgentSettings) (c : Core) (e : RpcError)
    → should_reconnect e ≡ true
    → r.create ≡ ok tt
    → cfg.agent_id == "" ≡ false
    → (a : AgentConnection) × (beat_once
          (record (through r) { beat = λ id c. (c, some e) })
          cfg
          linked
          c
        ≡ (linked, record c { agents = put c.agents cfg.agent_id a }))
      × (a.last_seen ≡ r.now)
      × (a.status ≡ online)
      × (a.labels ≡ [])
unfolding beat_once send_heartbeat reconnect_to_server register_with_server register_request through
    register_agent
beat_once-reconnect r cfg c e s k n =
    let failing : Network Core = record (through r) { beat = λ id c. (c, some e) } in
    let req : RegisterRequest = register_request cfg in
    let a : AgentConnection = registered_agent req r.now in
    let named : agent_id_for req r.now ≡ cfg.agent_id =
      ap (λ b. if b then generate_agent_id cfg.hostname (r.now / second) else cfg.agent_id) n in
    (
      a,
      ap (λ b. reconnect_if b failing cfg linked c) s
          ∙ ap (λ x. let (l, v, o) = reconnected failing cfg c x in (l, v)) k
          ∙ ap (λ id. (linked, record c { agents = put c.agents id a })) named,
      refl,
      refl,
      refl,
    )
