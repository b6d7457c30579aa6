-- ===== src/Plugin/Registry.antt =====
-- pkg/plugin/registry.go. A plugin is a value of any type with the operations of the interfaces:
-- its name, which interfaces it implements (the type assertions of `Register`), and its calls, whose
-- errors are what they return. The registry keeps plugins in a map and in a list for each kind.
pub mod Order
pub mod Calls
use mandau.Base.{
  ◌≡◌, String, Bool, true, false, Option, none, some, List, [], ◌∷◌, ◌++◌, Map, get, put, values,
  if◌then◌else◌, Result, ok, err, ◌<>◌,
}
use mandau.Plugin.{Value, AuditEntry}

-- `init` is given the plugin's entry of the configurations, empty for a missing key.
pub record PluginApi (P : Type 0) : Type 0 where
  pub name : P → String
  pub is_auth : P → Bool
  pub is_audit : P → Bool
  pub is_secrets : P → Bool
  pub is_policy : P → Bool
  pub init : P → Map Value → Result (Unit {0})
  pub shutdown : P → Result (Unit {0})

pub record Registry (P : Type 0) : Type 0 where
  pub plugins : Map P
  pub auth : List P
  pub audit : List P
  pub secrets : List P
  pub policy : List P

abbrev pub new_registry : {P : Type 0} → Registry P
new_registry = record { plugins = []; auth = []; audit = []; secrets = []; policy = [] }

abbrev append_if : {P : Type 0} → Bool → List P → P → List P
append_if b ps p = if b then ps ++ p ∷ [] else ps

abbrev pub or_empty : Option (Map Value) → Map Value
or_empty none = []
or_empty (some c) = c

abbrev first : {P : Type 0} → List P → Option P
first [] = none
first (p ∷ ps) = some p

module _ {P : Type 0} (api : PluginApi P) where
  -- The registry after `Register`, and its error.
  unfoldable pub register : Registry P → P → Registry P × Result (Unit {0})
  register r p = elim (get r.plugins (api.name p)) [
    | some old ↦ (r, err ("plugin " <> api.name p <> " already registered"))
    | none ↦ (
      record {
        plugins = put r.plugins (api.name p) p;
        auth = append_if (api.is_auth p) r.auth p;
        audit = append_if (api.is_audit p) r.audit p;
        secrets = append_if (api.is_secrets p) r.secrets p;
        policy = append_if (api.is_policy p) r.policy p;
      },
      ok tt,
    )
  ]

  unfoldable pub init_each : Map (Map Value) → Map P → Result (Unit {0})
  init_each configs [] = ok tt
  init_each configs ((name, p) ∷ rest) = elim (api.init p (or_empty (get configs name))) [
    | err e ↦ err ("plugin " <> name <> " init failed: " <> e)
    | ok u ↦ init_each configs rest
  ]

  unfoldable pub init_plugins : Registry P → Map (Map Value) → Result (Unit {0})
  unfolding init_each
  init_plugins r configs = init_each configs r.plugins

  -- `lastErr` runs along the loop.
  unfoldable pub shutdown_each : Map P → Result (Unit {0}) → Result (Unit {0})
  shutdown_each [] last = last
  shutdown_each ((name, p) ∷ rest) last =
      shutdown_each rest (elim (api.shutdown p) [ ok u ↦ last | err e ↦ err e ])

  unfoldable pub shutdown_all : Registry P → Result (Unit {0})
  unfolding shutdown_each
  shutdown_all r = shutdown_each r.plugins (ok tt)

unfoldable auth_plugin : {P : Type 0} → Registry P → Option P
auth_plugin r = first r.auth

unfoldable policy_plugin : {P : Type 0} → Registry P → Option P
policy_plugin r = first r.policy

unfoldable list_all : {P : Type 0} → Registry P → List P
list_all r = values r.plugins

-- Each audit plugin logs the entry, in the order of registration; `log` changes the world.
module _ {P W : Type 0} (log : P → AuditEntry → W → W) where
  unfoldable audit_each : List P → AuditEntry → W → W
  audit_each [] e w = w
  audit_each (p ∷ ps) e w = audit_each ps e (log p e w)

  unfoldable pub audit_all : Registry P → AuditEntry → W → W
  unfolding audit_each
  audit_all r e w = audit_each r.audit e w
