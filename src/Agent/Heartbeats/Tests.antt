-- ===== src/Agent/Heartbeats/Tests.antt =====
-- The heartbeats of an agent whose core goes away and comes back.
use mandau.Base.{◌<>◌, ℕ, ◌≡◌, refl, none, some, [], ◌∷◌, get, put, ok, err}
use mandau.Base.Text.{contains}
use mandau.Config.AgentStart.{AgentSettings}
use mandau.Core.{online, AgentConnection, Core, new_core}
use mandau.Agent.Heartbeats.{
  RpcError, unavailable, other_code, Network, linked, closed, should_reconnect, beat_once, beats,
  beats-stuck,
}
use mandau.Agent.Forgotten.{Reach, through, beats-forgotten, beat_once-reconnect}

abbrev web_settings : AgentSettings
web_settings = record {
  agent_id = "agent-web";
  hostname = "web";
  listen_addr = ":8444";
  server_addr = "localhost:8443";
  cert_path = "certs/agent.crt";
  key_path = "certs/agent.key";
  ca_path = "certs/ca.crt";
  stack_root = "/var/lib/mandau/stacks";
  plugin_dir = "/usr/lib/mandau/plugins";
  labels = ("zone", "eu") ∷ [];
  full_config = none;
}

abbrev down : RpcError
down = record { code = unavailable; message = "connection refused" }

abbrev is_closing : RpcError
is_closing = record { code = other_code; message = "grpc: the client connection is closing" }

-- The core is away, and the certificate cannot be read.
abbrev away : Network Core
away = record {
  create = err "load cert: no such file";
  register = λ req c. (c, some down);
  beat = λ id c. (c, some down);
  closing = is_closing;
}

-- The core is there, and connections can be made.
abbrev there_at : ℕ → Reach
there_at now = record {
  now = now;
  create = ok tt;
  wire = λ e. record { code = other_code; message = "rpc error: code = Unknown desc = " <> e };
  closing = is_closing;
}

beats-stuck_example :
    beats (away ∷ through (there_at 30) ∷ through (there_at 60) ∷ []) web_settings linked new_core
    ≡ (closed, new_core)
unfolding should_reconnect contains through
beats-stuck_example =
    beats-stuck away (through (there_at 30) ∷ through (there_at 60) ∷ []) web_settings new_core
      new_core down "load cert: no such file" refl refl refl (refl, (refl, tt))

beats-forgotten_example :
    beats (through (there_at 30) ∷ through (there_at 60) ∷ []) web_settings linked new_core
    ≡ (linked, new_core)
unfolding should_reconnect contains new_core get
beats-forgotten_example =
    beats-forgotten (there_at 30 ∷ there_at 60 ∷ []) web_settings new_core refl (refl, refl, refl)
      (λ e. refl, (λ e. refl, tt))

beat_once-reconnect_example :
    (a : AgentConnection) × (beat_once
        (record (through (there_at 30)) { beat = λ id c. (c, some down) })
        web_settings
        linked
        new_core
      ≡ (linked, record new_core { agents = put new_core.agents "agent-web" a }))
    × (a.last_seen ≡ 30)
    × (a.status ≡ online)
    × (a.labels ≡ [])
unfolding should_reconnect contains
beat_once-reconnect_example =
    beat_once-reconnect (there_at 30) web_settings new_core down refl refl refl
