-- ===== src/Config/AgentStart.antt =====
-- How cmd/mandau-agent/main.go comes to its settings: `main` and `parseFlags`. What the flag package
-- reads from the arguments is the record `AgentFlags`.
use mandau.Base.{
  ◌≡◌, refl, sym, ap, subst, ◌⊎◌, inl, inr, String, Bool, true, false, ◌&&◌, not, Option, none,
  some, List, [], ◌∷◌, Map, put, if◌then◌else◌, ◌==◌, Result,
}
use mandau.Config.{
  AgentManagementConfig, CoreFile, AgentFile, Surroundings, load_core_config, load_agent_config,
  get_config_path, create_default_agent_config,
}
use mandau.Config.CoreStart.{loaded, or_else_try, or_default, from_variable, from_home, override}
use mandau.Config.Arguments.{find_config_arg, filter_config_args}
use mandau.Config.AgentId.{IdFile, choose_agent_id, host_name}

-- The flags, or their defaults.
pub record AgentFlags : Type 0 where
  pub id : String
  pub listen : String
  pub server : String
  pub cert : String
  pub key : String
  pub ca : String
  pub stack_root : String
  pub plugin_dir : String

unfoldable pub default_flags : AgentFlags
default_flags = record {
  id = "";
  listen = ":8444";
  server = "localhost:8443";
  cert = "/etc/mandau/agent.crt";
  key = "/etc/mandau/agent.key";
  ca = "/etc/mandau/ca.crt";
  stack_root = "/var/lib/mandau/stacks";
  plugin_dir = "/usr/lib/mandau/plugins";
}

-- The configuration of the agent before and after that of the file is applied.
pub record AgentSettings : Type 0 where
  pub agent_id : String
  pub hostname : String
  pub listen_addr : String
  pub server_addr : String
  pub cert_path : String
  pub key_path : String
  pub ca_path : String
  pub stack_root : String
  pub plugin_dir : String
  pub labels : Map String
  pub full_config : Option AgentFile

unfoldable parse_flags :
    (List String → AgentFlags)
    → IdFile
    → Result String
    → Option String
    → List String
    → AgentSettings × Option String
unfolding choose_agent_id
parse_flags parse os hostname file args =
    let flags : AgentFlags = parse args in
    let (agent_id, file') = choose_agent_id os flags.id hostname file in
    (
      record {
        agent_id = agent_id;
        hostname = host_name hostname;
        listen_addr = flags.listen;
        server_addr = flags.server;
        cert_path = flags.cert;
        key_path = flags.key;
        ca_path = flags.ca;
        stack_root = flags.stack_root;
        plugin_dir = flags.plugin_dir;
        labels = [];
        full_config = none;
      },
      file',
    )

abbrev is_set : AgentManagementConfig → Bool
is_set a = not (a.heartbeat_interval == "" && a.offline_timeout == "" && not a.auto_deregister)

abbrev connected_to : CoreFile → AgentFile → AgentFile
connected_to core config = record config {
  server_connection = record {
    core_addr = core.server.listen_addr;
    tls = record config.server_connection.tls {
      cert_path = core.server.tls.cert_path;
      key_path = core.server.tls.key_path;
      ca_path = core.server.tls.ca_path;
    };
  };
}

-- Both branches of the code assign the same.
unfoldable convert_core_config : CoreFile → AgentFile
convert_core_config core =
    if is_set core.agent_management && not (core.server.tls.cert_path == "")
    then connected_to core create_default_agent_config
    else connected_to core create_default_agent_config

abbrev converted : Option CoreFile → Option AgentFile
converted none = none
converted (some core) = some (convert_core_config core)

abbrev first_found : Option AgentFile → Option CoreFile → Option AgentFile → AgentFile
first_found variable home last =
    or_default (or_else_try variable (or_else_try (converted home) last))
      create_default_agent_config

-- The file of the variable, else that of the home directory, which is one of the core, else the one
-- that the arguments name, else the defaults.
unfoldable find_agent_config : Surroundings → List String → AgentFile
unfolding get_config_path convert_core_config
find_agent_config env args =
    first_found (from_variable (load_agent_config env) (get_config_path env ""))
      (from_home (load_core_config env) env.user_home_dir)
      (loaded (load_agent_config env (find_config_arg args "config/agent/config.yaml")))

abbrev put_all : Map String → Map String → Map String
put_all m [] = m
put_all m ((k, v) ∷ more) = put_all (put m k v) more

abbrev with_labels : Map String → Option (Map String) → Map String
with_labels labels none = labels
with_labels labels (some more) = put_all labels more

abbrev listen_of : String → String → String
listen_of file flag = if not (file == "") && flag == ":8444" then file else flag

unfoldable apply_agent_config : AgentFile → AgentSettings → AgentSettings
apply_agent_config file cfg = record cfg {
  listen_addr = listen_of file.server.listen_addr cfg.listen_addr;
  cert_path = override file.server.tls.cert_path cfg.cert_path;
  key_path = override file.server.tls.key_path cfg.key_path;
  ca_path = override file.server.tls.ca_path cfg.ca_path;
  server_addr = override file.server_connection.core_addr cfg.server_addr;
  stack_root = override file.stacks.root_dir cfg.stack_root;
  labels = with_labels cfg.labels file.agent.labels;
  full_config = some file;
}

-- What `NewAgent` is given, and the file of the ID.
unfoldable pub agent_main :
    Surroundings
    → (List String → AgentFlags)
    → IdFile
    → Result String
    → Option String
    → List String
    → AgentSettings × Option String
unfolding find_agent_config parse_flags apply_agent_config filter_config_args
agent_main env parse os hostname file args =
    let (cfg, file') = parse_flags parse os hostname file (filter_config_args args) in
    (apply_agent_config (find_agent_config env args) cfg, file')

-- A file of the agent that has the defaults but for the connection to the core and the labels.
abbrev Plainly : AgentFile → Type 0
Plainly f =
    (f.server ≡ create_default_agent_config.server)
    × (f.stacks ≡ create_default_agent_config.stacks)

same_branches : (b : Bool) (f : AgentFile) → (if b then f else f) ≡ f
same_branches true f = refl
same_branches false f = refl

convert_core_config-Plainly : (core : CoreFile) → Plainly (convert_core_config core)
unfolding convert_core_config
convert_core_config-Plainly core =
    subst Plainly
      (sym (
        same_branches (is_set core.agent_management && not (core.server.tls.cert_path == ""))
          (connected_to core create_default_agent_config)))
      (refl, refl)

-- The paths of the settings are those of the defaults.
abbrev pub DefaultPaths : AgentSettings → Type 0
DefaultPaths s =
    (s.cert_path ≡ "certs/agent.crt")
    × (s.key_path ≡ "certs/agent.key")
    × (s.ca_path ≡ "certs/ca.crt")
    × (s.stack_root ≡ "/var/lib/mandau/stacks")

apply_agent_config-DefaultPaths :
    (f : AgentFile) (cfg : AgentSettings) → Plainly f → DefaultPaths (apply_agent_config f cfg)
unfolding apply_agent_config create_default_agent_config
apply_agent_config-DefaultPaths f cfg (s, r) = (
  ap (λ t. override t.tls.cert_path cfg.cert_path) s,
  ap (λ t. override t.tls.key_path cfg.key_path) s,
  ap (λ t. override t.tls.ca_path cfg.ca_path) s,
  ap (λ t. override t.root_dir cfg.stack_root) r,
)

find_agent_config-Plainly :
    (env : Surroundings) (args : List String)
    → from_variable (load_agent_config env) (get_config_path env "") ≡ none
    → ((core : CoreFile) × (from_home (load_core_config env) env.user_home_dir ≡ some core))
      ⊎ ((from_home (load_core_config env) env.user_home_dir ≡ none)
          × (loaded (load_agent_config env (find_config_arg args "config/agent/config.yaml"))
              ≡ none))
    → Plainly (find_agent_config env args)
unfolding find_agent_config
find_agent_config-Plainly env args v (inl (core, e)) =
    let last = loaded (load_agent_config env (find_config_arg args "config/agent/config.yaml")) in
    subst (λ o. Plainly (first_found o (from_home (load_core_config env) env.user_home_dir) last))
      (sym v)
      (subst (λ h. Plainly (first_found none h last)) (sym e) (convert_core_config-Plainly core))
find_agent_config-Plainly env args v (inr (e, l)) =
    let last = loaded (load_agent_config env (find_config_arg args "config/agent/config.yaml")) in
    subst (λ o. Plainly (first_found o (from_home (load_core_config env) env.user_home_dir) last))
      (sym v)
      (subst (λ h. Plainly (first_found none h last)) (sym e)
        (subst (λ o. Plainly (first_found none none o)) (sym l) (refl, refl)))

-- If MANDAU_CONFIG_PATH gives no file, then with a file in the home directory, and also if the file
-- that the arguments name cannot be loaded, the agent has the default certificate, key, CA and stack
-- directory, whatever its flags are and whatever the file in the home
-- directory says of them.
pub agent_main-default :
    (env : Surroundings) (parse : List String → AgentFlags) (os : IdFile) (hostname : Result String)
    (file : Option String) (args : List String)
    → from_variable (load_agent_config env) (get_config_path env "") ≡ none
    → ((core : CoreFile) × (from_home (load_core_config env) env.user_home_dir ≡ some core))
      ⊎ ((from_home (load_core_config env) env.user_home_dir ≡ none)
          × (loaded (load_agent_config env (find_config_arg args "config/agent/config.yaml"))
              ≡ none))
    → DefaultPaths (agent_main env parse os hostname file args).0
unfolding agent_main
agent_main-default env parse os hostname file args v h =
    apply_agent_config-DefaultPaths (find_agent_config env args)
      (parse_flags parse os hostname file (filter_config_args args)).0
      (find_agent_config-Plainly env args v h)
