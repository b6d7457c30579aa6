-- ===== src/Plugin/Registry/Calls.antt =====
-- What the calls to all plugins come to. A map's order is any order, so what holds here holds however
-- the loops over the map go.
use mandau.Base.{
  ◌≡◌, refl, ◌↔◌, inl, inr, String, List, [], ◌∷◌, Map, get, Result, ok, err, Result-cases, All,
}
use mathlib.Core.List.{foldl}
use mandau.Plugin.{Value, AuditEntry}
use mandau.Plugin.Registry.{
  PluginApi, Registry, init_each, init_plugins, shutdown_each, shutdown_all, or_empty, audit_each,
  audit_all,
}

module _ {P : Type 0} (api : PluginApi P) where
  abbrev config_of : Map (Map Value) → String → Map Value
  config_of configs name = or_empty (get configs name)

  init_each-ok :
      (configs : Map (Map Value)) (m : Map P)
      → (init_each api configs m ≡ ok tt)
        ↔ All (λ e. api.init e.1 (config_of configs e.0) ≡ ok tt) m
  unfolding init_each
  init_each-ok configs [] = (λ h. tt, λ a. refl)
  init_each-ok configs ((name, p) ∷ m) = elim (Result-cases (api.init p (config_of configs name))) [
    | inl (x, e) ↦ (λ h. cc (rw (e, init_each) at h), λ a. cc (e, a.0))
    | inr (u, e) ↦
        rw (e, init_each)
          (λ h. (refl, (init_each-ok configs m).0 h), λ a. (init_each-ok configs m).1 a.1)
  ]

  -- `Init` succeeds exactly when every plugin accepts its configuration.
  pub init_plugins_iff :
      (r : Registry P) (configs : Map (Map Value))
      → (init_plugins api r configs ≡ ok tt)
        ↔ All (λ e. api.init e.1 (config_of configs e.0) ≡ ok tt) r.plugins
  unfolding init_plugins
  init_plugins_iff r configs = init_each-ok configs r.plugins

  shutdown_each-ok :
      (m : Map P) (last : Result (Unit {0}))
      → (shutdown_each api m last ≡ ok tt)
        ↔ ((last ≡ ok tt) × All (λ e. api.shutdown e.1 ≡ ok tt) m)
  unfolding shutdown_each
  shutdown_each-ok [] last = (λ h. (h, tt), λ h. h.0)
  shutdown_each-ok ((name, p) ∷ m) last = elim (Result-cases (api.shutdown p)) [
    | inl (x, e) ↦ rw e (λ h. cc (((shutdown_each-ok m (err x)).0 h).0), λ a. cc a.1.0)
    | inr (u, e) ↦ rw e (
      λ h. (((shutdown_each-ok m last).0 h).0, (refl, ((shutdown_each-ok m last).0 h).1)),
      λ a. (shutdown_each-ok m last).1 (a.0, a.1.1),
    )
  ]

  -- `ShutdownAll` goes through every plugin, and reports no error exactly when none failed.
  pub shutdown_all_iff :
      (r : Registry P)
      → (shutdown_all api r ≡ ok tt) ↔ All (λ e. api.shutdown e.1 ≡ ok tt) r.plugins
  unfolding shutdown_all
  shutdown_all_iff r = (
    λ h. ((shutdown_each-ok r.plugins (ok tt)).0 h).1,
    λ a. (shutdown_each-ok r.plugins (ok tt)).1 (refl, a),
  )

module _ {P W : Type 0} (log : P → AuditEntry → W → W) where
  -- The world after every audit plugin has logged the entry once, in their order.
  abbrev pub each_logged : Registry P → AuditEntry → W → W
  each_logged r e w = foldl (λ v p. log p e v) w r.audit

  audit_each_lem :
      (ps : List P) (e : AuditEntry) (w : W) → audit_each log ps e w ≡ foldl (λ v p. log p e v) w ps
  unfolding audit_each
  audit_each_lem [] e w = refl
  audit_each_lem (p ∷ ps) e w = audit_each_lem ps e (log p e w)

  pub audit_all_lem :
      (r : Registry P) (e : AuditEntry) (w : W) → audit_all log r e w ≡ each_logged r e w
  unfolding audit_all
  audit_all_lem r e w = audit_each_lem r.audit e w
