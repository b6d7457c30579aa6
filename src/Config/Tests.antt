-- ===== src/Config/Tests.antt =====
-- The theorems on the configurations where no file is found, and at small ones.
use mandau.Base.{◌≡◌, refl, inr, String, true, false, none, some, List, [], ◌∷◌, ok, err, get, put}
use mandau.Plugin.Registry.{PluginApi, Registry, new_registry, register, init_each, init_plugins}
use mandau.Config.{
  Surroundings, load_core_config, load_agent_config, get_config_path, create_default_core_config,
  create_default_agent_config,
}
use mandau.Config.CoreStart.{
  CoreFlags, core_main, new_core_of, load_plugins, load_each, find_core_config, apply_core_flags,
  reload_core_config, update_core_config,
}
use mandau.Config.CoreDefaults.{default_settings, core_main-default}
use mandau.Config.Arguments.{filter_config_args}
use mandau.Config.AgentId.{IdFile, choose_agent_id, choose_agent_id-again}
use mandau.Config.AgentStart.{default_flags, agent_main, DefaultPaths, agent_main-default}

-- A machine without configuration files, on which all other files are there.
abbrev bare : Surroundings
bare = record {
  config_variable = "";
  user_home_dir = ok "/root";
  read_file = λ path. err "no such file or directory";
  core_of_yaml = λ bytes. ok create_default_core_config;
  agent_of_yaml = λ bytes. ok create_default_agent_config;
  exists_path = λ path. true;
}

-- One plugin, which takes every configuration.
abbrev one_plugin : PluginApi (Unit {0})
one_plugin = record {
  name = λ p. "rbac-auth";
  is_auth = λ p. true;
  is_audit = λ p. false;
  is_secrets = λ p. false;
  is_policy = λ p. true;
  init = λ p config. ok tt;
  shutdown = λ p. ok tt;
}

-- The operator asks for another port and another certificate.
abbrev other_port : CoreFlags
other_port = record {
  config = "config/core/config.yaml";
  cert = "mine.crt";
  key = "";
  ca = "";
  listen = ":9000";
  plugin_dir = "";
}

abbrev with_rbac : Registry (Unit {0})
with_rbac = (register one_plugin new_registry tt).0

core_main-default_example : default_settings ≡ default_settings
unfolding core_main new_core_of load_plugins load_each find_core_config apply_core_flags
    reload_core_config update_core_config load_core_config get_config_path init_each init_plugins
    register get put create_default_core_config
core_main-default_example =
    core_main-default one_plugin tt bare other_port "no such file or directory" default_settings
      with_rbac refl refl

abbrev given_args : List String
given_args = "-listen" ∷ ":9000" ∷ "--config" ∷ "a.yaml" ∷ "-config=b.yaml" ∷ []

-- The two settings of the file are gone.
two_left : filter_config_args given_args ≡ "-listen" ∷ ":9000" ∷ []
unfolding filter_config_args
two_left = refl

abbrev working : IdFile
working = record {
  trim_space = λ s. s;
  mkdir_all = ok tt;
  read_file = λ content. ok content;
  write_file = λ id file. some id;
}

choose_agent_id-again_example :
    (choose_agent_id working "" (ok "db") (choose_agent_id working "" (ok "web") none).1).0
    ≡ (choose_agent_id working "" (ok "web") none).0
choose_agent_id-again_example =
    choose_agent_id-again working "" (ok "web") (ok "db") none
      (refl, (λ id file. refl), λ content. refl) refl

agent_main-default_example :
    DefaultPaths (agent_main bare (λ args. default_flags) working (ok "web") none given_args).0
unfolding load_agent_config load_core_config get_config_path
agent_main-default_example =
    agent_main-default bare (λ args. default_flags) working (ok "web") none given_args refl
      (inr (refl, refl))
