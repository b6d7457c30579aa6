-- ===== src/Plugin.antt =====
-- pkg/plugin: the data that plugins exchange (types.go, interface.go, utils.go).
pub mod Registry
use mandau.Base.{String, Bool, true, false, Option, none, some, List, [], ◌∷◌, Map, get, ℕ}

-- The values of a plugin's configuration, `interface{}`, by the types that the plugins assert.
pub data Value : Type 0 where
  text : String → Value
  flag : Bool → Value
  other : Value

pub record Identity : Type 0 where
  pub user_id : String
  pub device_id : String
  pub roles : List String
  pub attributes : Map String
  pub certificate : List ℕ

-- The method of a call, what is done, and to what: `stack:web`.
pub record Action : Type 0 where
  pub method : String
  pub action : String
  pub resource : String

pub record Resource : Type 0 where
  pub resource_type : String
  pub identifier : String
  pub labels : Map String

pub record AuthRequest : Type 0 where
  pub identity : Identity
  pub method : String
  pub token : String

pub record PolicyRequest : Type 0 where
  pub identity : Identity
  pub action : Action
  pub resource : Resource
  pub context : Map Value

pub record PolicyDecision : Type 0 where
  pub allowed : Bool
  pub reason : String
  pub obligations : List String

pub record AuditEntry : Type 0 where
  pub timestamp : ℕ
  pub agent_id : String
  pub identity : Option Identity
  pub action : String
  pub resource : String
  pub result : String
  pub duration : ℕ
  pub metadata : Map String
  pub transcript_hash : String

pub record AuditFilter : Type 0 where
  pub agent_id : String
  pub user_id : String
  pub action : String
  pub start_time : Option ℕ
  pub end_time : Option ℕ
  pub limit : ℕ

abbrev as_text : Option Value → Option String
as_text (some (text s)) = some s
as_text (some (flag b)) = none
as_text (some other) = none
as_text none = none

-- `config[key].(string)`, with its `ok`.
unfoldable pub text_at : Map Value → String → Option String
text_at config key = as_text (get config key)

abbrev or_blank : Option String → String
or_blank none = ""
or_blank (some s) = s

unfoldable get_string_config : Map Value → String → String
unfolding text_at
get_string_config config key = or_blank (text_at config key)
