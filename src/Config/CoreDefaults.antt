-- ===== src/Config/CoreDefaults.antt =====
-- What `NewCore` of pkg/core/server.go makes of a configuration, and which plugins it loads.
use mandau.Base.{
  ◌≡◌, ◌≢◌, refl, sym, ap, subst, ◌∙◌, inl, inr, String, Bool, true, false, Option, none, some, [],
  ◌∷◌, Map, if◌then◌else◌, ◌==◌, ok, err, ◌>>=◌, in_context, bind-ok, in_context-ok, get,
  Bool-cases, eq_iff, All, keys, Unique, ne→==-false,
}
use mandau.Plugin.Registry.{PluginApi, Registry, new_registry, register}
use mandau.Config.{Surroundings, load_core_config, get_config_path, create_default_core_config}
use mandau.Config.CoreStart.{
  CoreConfig, CoreFlags, reload_core_config, update_core_config, load_plugins, load_each, load_one,
  new_core_of, core_main, loaded, or_default, apply_core_flags, find_core_config, present,
}

-- The addresses and paths of the defaults.
abbrev pub default_settings : CoreConfig
default_settings = record {
  listen_addr = ":8443";
  cert_path = "certs/core.crt";
  key_path = "certs/core.key";
  ca_path = "certs/ca.crt";
  plugin_dir = "/usr/lib/mandau/plugins";
  full_config = create_default_core_config;
}

update-default :
    (c : CoreConfig) → update_core_config c create_default_core_config ≡ default_settings
unfolding update_core_config create_default_core_config
update-default c = refl

module _ {P : Type 0} (api : PluginApi P) (rbac : P) where
  new_core_of-default :
      (env : Surroundings) (c : CoreConfig) (e : String)
      → load_core_config env (get_config_path env "config/core/config.yaml") ≡ err e
      → new_core_of api rbac env c ≡ (
          in_context "load plugins: " (load_plugins api rbac create_default_core_config.plugins)
          >>= λ r. ok (default_settings, r))
  unfolding new_core_of reload_core_config
  new_core_of-default env c e h =
      ap
        (λ r.
          in_context "load plugins: "
            (load_plugins api rbac (or_default (loaded r) create_default_core_config).plugins)
          >>= λ s. ok (update_core_config c (or_default (loaded r) create_default_core_config), s))
        h
      ∙ ap
          (λ d.
            in_context "load plugins: " (load_plugins api rbac create_default_core_config.plugins)
            >>= λ s. ok (d, s))
          (update-default c)

  -- If there is no configuration file where `NewCore` looks for it, which is MANDAU_CONFIG_PATH or
  -- else config/core/config.yaml, then a core that starts has the default addresses and paths,
  -- whatever its flags are, the flag `config` among them, and whatever file the home directory has.
  pub core_main-default :
      (env : Surroundings) (flags : CoreFlags) (e : String) (c : CoreConfig) (r : Registry P)
      → load_core_config env (get_config_path env "config/core/config.yaml") ≡ err e
      → core_main api rbac env flags ≡ ok (c, r)
      → c ≡ default_settings
  unfolding core_main
  core_main-default env flags e c r h m =
      let before : CoreConfig = apply_core_flags flags (find_core_config env flags.config) in
      let (u, p, m1) = bind-ok (present env "Certificate" before.cert_path) _ (c, r) m in
      let (v, q, m2) = bind-ok (present env "Key" before.key_path) _ (c, r) m1 in
      let (w, o, m3) = bind-ok (present env "CA certificate" before.ca_path) _ (c, r) m2 in
      let started =
        in_context-ok "failed to create core: " (new_core_of api rbac env before) (c, r) m3 in
      let (s, l, f) =
        bind-ok
          (in_context "load plugins: " (load_plugins api rbac create_default_core_config.plugins))
          (λ t. ok (default_settings, t)) (c, r)
          (sym (new_core_of-default env before e h) ∙ started) in
      cc f

  passed : (b : Bool) (r : Registry P) → load_one api rbac b false r ≡ ok r
  passed true r = refl
  passed false r = refl

  load_one-other :
      (b : Bool) (name : String) (r : Registry P)
      → name ≢ "rbac-auth"
      → load_one api rbac b (name == "rbac-auth") r ≡ ok r
  load_one-other b name r h =
      ap (λ t. load_one api rbac b t r) (ne→==-false name "rbac-auth" h) ∙ passed b r

  load_each-others :
      (m : Map Bool) (r : Registry P)
      → All (λ j. j ≢ "rbac-auth") (keys m)
      → load_each api rbac m r ≡ ok r
  unfolding load_each
  load_each-others [] r h = refl
  load_each-others ((name, b) ∷ m) r h =
      ap (λ s. s >>= load_each api rbac m) (load_one-other b name r h.0) ∙ load_each-others m r h.1

  first_round :
      (b : Bool)
      → load_one api rbac b true new_registry
        ≡ ok (if b then (register api new_registry rbac).0 else new_registry)
  unfolding register get
  first_round true = refl
  first_round false = refl

  abbrev is_on : Option Bool → Bool
  is_on none = false
  is_on (some b) = b

  -- Whatever plugins a configuration enables, in whatever order, loading them gives no error, and the
  -- registry has the plugin rbac-auth if that is enabled, and otherwise none at all: every other
  -- name, file-audit among them, is passed over.
  pub load_each_lem :
      (m : Map Bool)
      → Unique m
      → load_each api rbac m new_registry
        ≡ ok
            (if is_on (get m "rbac-auth") then (register api new_registry rbac).0 else new_registry)
  unfolding load_each get register
  load_each_lem [] u = refl
  load_each_lem ((name, b) ∷ m) u = elim (Bool-cases (name == "rbac-auth")) [
    | inl e ↦ rw e (
        ap (λ s. s >>= load_each api rbac m) (first_round b)
        ∙ load_each-others m (if b then (register api new_registry rbac).0 else new_registry)
            (subst (λ n. All (λ j. j ≢ n) (keys m)) ((eq_iff name "rbac-auth").0 e) u.0))
    | inr e ↦
        rw e (ap (λ s. s >>= load_each api rbac m) (passed b new_registry) ∙ load_each_lem m u.1)
  ]
