-- ===== src/Config/CoreStart.antt =====
-- cmd/mandau-core/main.go, and `NewCore` and `loadPlugins` of pkg/core/server.go: how the core comes
-- to its configuration. Plugins are of any type, as in the registry. What is logged is left out.
use mandau.Base.{
  String, Bool, true, false, Option, none, some, [], ◌∷◌, Map, if◌then◌else◌, ◌==◌, Result, ok, err,
  ◌>>=◌, ◌<>◌, in_context,
}
use mandau.Plugin.Registry.{PluginApi, Registry, new_registry, register, init_plugins}
use mandau.Config.{
  PluginConfig, CoreFile, Surroundings, load_core_config, get_config_path,
  create_default_core_config,
}

pub record CoreConfig : Type 0 where
  pub listen_addr : String
  pub cert_path : String
  pub key_path : String
  pub ca_path : String
  pub plugin_dir : String
  pub full_config : CoreFile

-- The flags of the command; an absent flag is empty but for `config`.
pub record CoreFlags : Type 0 where
  pub config : String
  pub cert : String
  pub key : String
  pub ca : String
  pub listen : String
  pub plugin_dir : String

abbrev pub loaded {ℓ} : {A : Type ℓ} → Result A → Option A
loaded (ok config) = some config
loaded (err e) = none

abbrev pub or_else_try {ℓ} : {A : Type ℓ} → Option A → Option A → Option A
or_else_try (some config) next = some config
or_else_try none next = next

abbrev pub or_default {ℓ} : {A : Type ℓ} → Option A → A → A
or_default (some config) default' = config
or_default none default' = default'

abbrev pub from_variable {ℓ} : {A : Type ℓ} → (String → Result A) → String → Option A
from_variable load path = if path == "" then none else loaded (load path)

abbrev pub from_home {ℓ} : {A : Type ℓ} → (String → Result A) → Result String → Option A
from_home load (err e) = none
from_home load (ok home) = loaded (load (home <> "/.mandau/config.yaml"))

-- The file of the variable, else the one of the home directory, else the one of the flag `config`,
-- else the defaults.
unfoldable pub find_core_config : Surroundings → String → CoreFile
unfolding get_config_path
find_core_config env config =
    or_default
      (or_else_try (from_variable (load_core_config env) (get_config_path env "")) (
        or_else_try (from_home (load_core_config env) env.user_home_dir)
          (loaded (load_core_config env config))))
      create_default_core_config

-- A value that is empty leaves the one before.
abbrev pub override : String → String → String
override value before = if value == "" then before else value

unfoldable pub apply_core_flags : CoreFlags → CoreFile → CoreConfig
apply_core_flags flags file = record {
  listen_addr = override flags.listen file.server.listen_addr;
  cert_path = override flags.cert file.server.tls.cert_path;
  key_path = override flags.key file.server.tls.key_path;
  ca_path = override flags.ca file.server.tls.ca_path;
  plugin_dir = override flags.plugin_dir file.plugin_dir;
  full_config = file;
}

abbrev pub present : Surroundings → String → String → Result (Unit {0})
present env what path =
    if env.exists_path path then ok tt else err (what <> " file does not exist: " <> path)

-- The file that `NewCore` reads by itself.
unfoldable pub reload_core_config : Surroundings → CoreFile
unfolding get_config_path
reload_core_config env =
    or_default (loaded (load_core_config env (get_config_path env "config/core/config.yaml")))
      create_default_core_config

unfoldable pub update_core_config : CoreConfig → CoreFile → CoreConfig
update_core_config c full = record {
  listen_addr = override full.server.listen_addr c.listen_addr;
  cert_path = override full.server.tls.cert_path c.cert_path;
  key_path = override full.server.tls.key_path c.key_path;
  ca_path = override full.server.tls.ca_path c.ca_path;
  plugin_dir = override full.plugin_dir c.plugin_dir;
  full_config = full;
}

module _ {P : Type 0} (api : PluginApi P) (rbac : P) where
  abbrev registered : Registry P × Result (Unit {0}) → Result (Registry P)
  registered (r, ok u) = ok r
  registered (r, err e) = err ("register rbac plugin: " <> e)

  -- One round of the loop over the enabled plugins; only the name rbac-auth has a plugin.
  abbrev pub load_one : Bool → Bool → Registry P → Result (Registry P)
  load_one false is_rbac r = ok r
  load_one true false r = ok r
  load_one true true r = registered (register api r rbac)

  unfoldable pub load_each : Map Bool → Registry P → Result (Registry P)
  load_each [] r = ok r
  load_each ((name, is_enabled) ∷ rest) r =
      load_one is_enabled (name == "rbac-auth") r >>= load_each rest

  unfoldable pub load_plugins : PluginConfig → Result (Registry P)
  unfolding load_each
  load_plugins config = load_each config.enabled new_registry >>= λ r.
      in_context "init plugins: " (init_plugins api r config.configs) >>= λ u. ok r

  -- The configuration and the plugins of the core.
  unfoldable pub new_core_of : Surroundings → CoreConfig → Result (CoreConfig × Registry P)
  unfolding reload_core_config update_core_config load_plugins
  new_core_of env c =
      let full : CoreFile = reload_core_config env in
      in_context "load plugins: " (load_plugins full.plugins) >>= λ r.
      ok (update_core_config c full, r)

  unfoldable pub core_main : Surroundings → CoreFlags → Result (CoreConfig × Registry P)
  unfolding find_core_config apply_core_flags new_core_of
  core_main env flags =
      let c : CoreConfig = apply_core_flags flags (find_core_config env flags.config) in
      present env "Certificate" c.cert_path >>= λ u. present env "Key" c.key_path >>= λ u.
      present env "CA certificate" c.ca_path >>= λ u.
      in_context "failed to create core: " (new_core_of env c)
