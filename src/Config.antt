-- ===== src/Config.antt =====
-- pkg/config: the configurations of the core and of the agent, how they are read, and the defaults.
-- The environment, the disk and the YAML decoder are the record `Surroundings`.
pub mod CoreStart
pub mod CoreDefaults
pub mod AgentStart
pub mod Arguments
pub mod AgentId
mod Tests
use mandau.Base.{
  ℕ, String, Bool, true, false, Option, none, some, List, [], ◌∷◌, Map, if◌then◌else◌, ◌==◌, Result,
  ok, err, ◌>>=◌, ◌<>◌,
}
use mandau.Plugin.{Value, text}

pub record TlsConfig : Type 0 where
  pub cert_path : String
  pub key_path : String
  pub ca_path : String
  pub min_version : String
  pub server_name : String

pub record ServerConfig : Type 0 where
  pub listen_addr : String
  pub tls : TlsConfig

pub record ServerConnectionConfig : Type 0 where
  pub core_addr : String
  pub tls : TlsConfig

-- A nil map of labels is `none`.
pub record AgentInfoConfig : Type 0 where
  pub id : String
  pub hostname : String
  pub labels : Option (Map String)

pub record DockerConfig : Type 0 where
  pub socket : String
  pub api_version : String

pub record StacksConfig : Type 0 where
  pub root_dir : String
  pub max_concurrent_operations : ℕ

pub record PluginConfig : Type 0 where
  pub enabled : Map Bool
  pub configs : Map (Map Value)

pub record SecurityConfig : Type 0 where
  pub exec_timeout : String
  pub log_retention : String
  pub terminal_recording : Bool

pub record AgentManagementConfig : Type 0 where
  pub heartbeat_interval : String
  pub offline_timeout : String
  pub auto_deregister : Bool

pub record CoreFile : Type 0 where
  pub server : ServerConfig
  pub plugins : PluginConfig
  pub agent_management : AgentManagementConfig
  pub plugin_dir : String

pub record AgentFile : Type 0 where
  pub agent : AgentInfoConfig
  pub server : ServerConfig
  pub server_connection : ServerConnectionConfig
  pub docker : DockerConfig
  pub stacks : StacksConfig
  pub plugins : PluginConfig
  pub security : SecurityConfig

-- The variable MANDAU_CONFIG_PATH, the home directory, reading a file, and YAML.
pub record Surroundings : Type 0 where
  pub config_variable : String
  pub user_home_dir : Result String
  pub read_file : String → Result String
  pub core_of_yaml : String → Result CoreFile
  pub agent_of_yaml : String → Result AgentFile
  pub exists_path : String → Bool

abbrev default_plugin_dir : String
default_plugin_dir = "/usr/lib/mandau/plugins"

abbrev with_plugin_dir : CoreFile → CoreFile
with_plugin_dir config =
    if config.plugin_dir == "" then record config { plugin_dir = default_plugin_dir } else config

unfoldable pub load_core_config : Surroundings → String → Result CoreFile
load_core_config env path =
    env.read_file path >>= λ bytes. env.core_of_yaml bytes >>= λ config. ok (with_plugin_dir config)

unfoldable pub load_agent_config : Surroundings → String → Result AgentFile
load_agent_config env path = env.read_file path >>= env.agent_of_yaml

unfoldable pub get_config_path : Surroundings → String → String
get_config_path env default_path =
    if env.config_variable == "" then default_path else env.config_variable

abbrev core_roles : String
core_roles =
    "roles:\n" <> "  - name: admin\n" <> "    permissions:\n" <> "      - resource: \"*\"\n"
    <> "        actions: [\"*\"]\n" <> "  - name: operator\n" <> "    permissions:\n"
    <> "      - resource: \"stack:*\"\n" <> "        actions: [\"read\", \"write\", \"delete\"]\n"
    <> "      - resource: \"container:*\"\n" <> "        actions: [\"read\", \"exec\", \"logs\"]\n"
    <> "      - resource: \"image:*\"\n" <> "        actions: [\"read\", \"pull\"]\n"
    <> "      - resource: \"file:*\"\n" <> "        actions: [\"read\", \"write\"]\n"
    <> "  - name: viewer\n" <> "    permissions:\n" <> "      - resource: \"*\"\n"
    <> "        actions: [\"read\", \"logs\"]\n" <> "users:\n" <> "  - id: \"admin@example.com\"\n"
    <> "    name: \"Administrator\"\n" <> "    roles: [\"admin\"]\n"
    <> "  - id: \"ops@example.com\"\n" <> "    name: \"Operations Team\"\n"
    <> "    roles: [\"operator\"]\n" <> "  - id: \"mandau-agent\"\n" <> "    name: \"Agent User\"\n"
    <> "    roles: [\"admin\"]  # Agent needs admin rights to manage stacks on its host\n"
    <> "  - id: \"mandau-cli\"\n" <> "    name: \"CLI User\"\n" <> "    roles: [\"admin\"]"

abbrev core_tls : TlsConfig
core_tls = record {
  cert_path = "certs/core.crt";
  key_path = "certs/core.key";
  ca_path = "certs/ca.crt";
  min_version = "TLS1.3";
  server_name = "mandau-core";
}

abbrev with_rbac : String → PluginConfig
with_rbac roles = record {
  enabled = ("rbac-auth", true) ∷ [];
  configs = ("rbac-auth", ("roles", text roles) ∷ []) ∷ [];
}

unfoldable pub create_default_core_config : CoreFile
create_default_core_config = record {
  server = record { listen_addr = ":8443"; tls = core_tls };
  plugins = with_rbac core_roles;
  agent_management = record {
    heartbeat_interval = "30s";
    offline_timeout = "90s";
    auto_deregister = false;
  };
  plugin_dir = "/usr/lib/mandau/plugins";
}

abbrev agent_roles : String
agent_roles =
    "roles:\n" <> "  - name: admin\n" <> "    permissions:\n" <> "      - resource: \"*\"\n"
    <> "        actions: [\"*\"]\n" <> "  - name: operator\n" <> "    permissions:\n"
    <> "      - resource: \"stack:*\"\n" <> "        actions: [\"read\", \"write\", \"delete\"]\n"
    <> "      - resource: \"container:*\"\n" <> "        actions: [\"read\", \"exec\", \"logs\"]\n"
    <> "      - resource: \"image:*\"\n" <> "        actions: [\"read\", \"pull\"]\n"
    <> "      - resource: \"file:*\"\n" <> "        actions: [\"read\", \"write\"]\n"
    <> "  - name: viewer\n" <> "    permissions:\n" <> "      - resource: \"*\"\n"
    <> "        actions: [\"read\", \"logs\"]\n" <> "users:\n" <> "  - id: \"mandau-core\"\n"
    <> "    name: \"Core Server\"\n"
    <> "    roles: [\"admin\"]  # Core server has admin privileges to forward requests\n"
    <> "  - id: \"mandau-cli\"\n" <> "    name: \"CLI User\"\n" <> "    roles: [\"admin\"]\n"
    <> "  - id: \"admin@example.com\"\n" <> "    name: \"Administrator\"\n"
    <> "    roles: [\"admin\"]\n" <> "  - id: \"ops@example.com\"\n"
    <> "    name: \"Operations Team\"\n" <> "    roles: [\"operator\"]"

abbrev agent_tls : String → TlsConfig
agent_tls server_name = record {
  cert_path = "certs/agent.crt";
  key_path = "certs/agent.key";
  ca_path = "certs/ca.crt";
  min_version = "TLS1.3";
  server_name = server_name;
}

unfoldable pub create_default_agent_config : AgentFile
create_default_agent_config = record {
  agent = record { id = ""; hostname = ""; labels = none };
  server = record { listen_addr = ":8444"; tls = agent_tls "mandau-agent" };
  server_connection = record { core_addr = "localhost:8443"; tls = agent_tls "mandau-core" };
  docker = record { socket = "/var/run/docker.sock"; api_version = "1.41" };
  stacks = record { root_dir = "/var/lib/mandau/stacks"; max_concurrent_operations = 5 };
  plugins = with_rbac agent_roles;
  security = record { exec_timeout = "1h"; log_retention = "30d"; terminal_recording = true };
}
