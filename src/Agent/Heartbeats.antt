-- ===== src/Agent/Heartbeats.antt =====
-- The heartbeats of cmd/mandau-agent/main.go and its reconnections to the core: `startHeartbeat`,
-- `shouldReconnect`, `reconnectToServer`, `sendHeartbeat`, `registerWithServer`. The core and gRPC
-- stand behind the record `Network`; `Reach` puts the registry of the core there.
mod Tests
use mandau.Base.{
  ℕ, ◌*◌, ◌≡◌, refl, sym, ap, subst, ◌∙◌, inl, inr, String, Bool, true, false, ◌||◌, Option, none,
  some, List, [], ◌∷◌, if◌then◌else◌, Result, ok, err, ◌<>◌, in_context, get, put, get-put_same,
  Option-cases,
}
use mandau.Base.Text.{contains}
use mandau.Config.AgentStart.{AgentSettings}
use mandau.Core.{
  AgentStatus, online, AgentConnection, Core, RegisterRequest, register_agent, heartbeat,
  agent_id_for, registered_agent,
}

-- The codes of gRPC's statuses that the agent asks about.
pub data RpcCode : Type 0 where
  unavailable deadline_exceeded other_code : RpcCode

-- An error of a call: its code, and its text.
pub record RpcError : Type 0 where
  pub code : RpcCode
  pub message : String

abbrev is_connection_code : RpcCode → Bool
is_connection_code unavailable = true
is_connection_code deadline_exceeded = true
is_connection_code other_code = false

unfoldable pub should_reconnect : RpcError → Bool
unfolding contains
should_reconnect e =
    is_connection_code e.code
    || contains e.message "connection refused"
    || contains e.message "connection reset"
    || contains e.message "broken pipe"

pub data Link : Type 0 where
  linked closed : Link

-- What the calls of one moment do: making a connection (`createServerConnection`), and the calls of
-- the core, which act on the world. `closing` is the error of any call over a closed connection.
pub record Network (W : Type 0) : Type 0 where
  pub create : Result (Unit {0})
  pub register : RegisterRequest → W → W × Option RpcError
  pub beat : String → W → W × Option RpcError
  pub closing : RpcError

-- The labels of the configuration are not sent.
unfoldable pub register_request : AgentSettings → RegisterRequest
register_request cfg = record {
  agent_id = cfg.agent_id;
  hostname = cfg.hostname;
  labels = [];
  capabilities = "docker" ∷ "stack" ∷ "container" ∷ "logs" ∷ "exec" ∷ [];
}

module _ {W : Type 0} where
  unfoldable pub register_with_server : Network W → AgentSettings → Link → W → W × Option RpcError
  unfolding register_request
  register_with_server net cfg linked w = net.register (register_request cfg) w
  register_with_server net cfg closed w = (w, some net.closing)

  unfoldable pub send_heartbeat : Network W → AgentSettings → Link → W → W × Option RpcError
  send_heartbeat net cfg linked w = net.beat cfg.agent_id w
  send_heartbeat net cfg closed w = (w, some net.closing)

  abbrev pub reconnected :
      Network W → AgentSettings → W → Result (Unit {0}) → Link × W × Result (Unit {0})
  reconnected net cfg w (err e) = (closed, w, err ("create new server connection: " <> e))
  reconnected net cfg w (ok u) =
      let (w', r) = register_with_server net cfg linked w in (linked, w', outcome r)
    where
      outcome : Option RpcError → Result (Unit {0})
      outcome none = ok tt
      outcome (some e) = err ("re-register with server: " <> e.message)

  -- The old connection is closed before the new one is made.
  unfoldable pub reconnect_to_server : Network W → AgentSettings → W → Link × W × Result (Unit {0})
  unfolding register_with_server
  reconnect_to_server net cfg w = reconnected net cfg w net.create

  abbrev pub reconnect_if : Bool → Network W → AgentSettings → Link → W → Link × W
  reconnect_if false net cfg link w = (link, w)
  reconnect_if true net cfg link w = let (l, w', r) = reconnect_to_server net cfg w in (l, w')

  abbrev pub after_beat : Network W → AgentSettings → Link → W × Option RpcError → Link × W
  after_beat net cfg link (w, none) = (link, w)
  after_beat net cfg link (w, some e) = reconnect_if (should_reconnect e) net cfg link w

  -- One tick of `startHeartbeat`.
  unfoldable pub beat_once : Network W → AgentSettings → Link → W → Link × W
  unfolding send_heartbeat should_reconnect reconnect_to_server
  beat_once net cfg link w = after_beat net cfg link (send_heartbeat net cfg link w)

  unfoldable pub beats : List (Network W) → AgentSettings → Link → W → Link × W
  unfolding beat_once
  beats [] cfg link w = (link, w)
  beats (net ∷ nets) cfg link w =
      let (link', w') = beat_once net cfg link w in beats nets cfg link' w'

  -- A call over a closed connection fails in a way that is no reason to reconnect.
  abbrev pub Closing : List (Network W) → Type 0
  Closing [] = Unit {0}
  Closing (net ∷ nets) = (should_reconnect net.closing ≡ false) × Closing nets

  beats-closed :
      (nets : List (Network W)) (cfg : AgentSettings) (w : W)
      → Closing nets
      → beats nets cfg closed w ≡ (closed, w)
  unfolding beats beat_once send_heartbeat
  beats-closed [] cfg w h = refl
  beats-closed (net ∷ nets) cfg w h =
      ap (λ b. let (l, v) = reconnect_if b net cfg closed w in beats nets cfg l v) h.0
      ∙ beats-closed nets cfg w h.1

  -- When a heartbeat fails as it does if the core is not reached and the new connection cannot be
  -- made, the agent never calls the core again, whatever the next ticks could do: the world is as the
  -- failed heartbeat left it. The errors of closed connections must not look like broken ones.
  pub beats-stuck :
      (net : Network W) (nets : List (Network W)) (cfg : AgentSettings) (w w' : W) (e : RpcError)
      (reason : String)
      → net.beat cfg.agent_id w ≡ (w', some e)
      → should_reconnect e ≡ true
      → net.create ≡ err reason
      → Closing nets
      → beats (net ∷ nets) cfg linked w ≡ (closed, w')
  unfolding beats beat_once send_heartbeat reconnect_to_server
  beats-stuck net nets cfg w w' e reason b s c h =
      ap (λ r. let (l, v) = after_beat net cfg linked r in beats nets cfg l v) b
      ∙ ap (λ t. let (l, v) = reconnect_if t net cfg linked w' in beats nets cfg l v) s
      ∙ ap (λ r. let (l, v, o) = reconnected net cfg w' r in beats nets cfg l v) c
      ∙ beats-closed nets cfg w' h
