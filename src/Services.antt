-- ===== src/Services.antt =====
-- The services of a host that the agent deploys web services with: plugins/services/systemd,
-- plugins/services/firewall and plugins/security/acme, and pkg/agent/service/manager.go over them.
pub mod Firewall
pub mod Systemd
pub mod Deploy
pub mod Deployed
mod Tests
use mandau.Base.{String, List, Result}

-- A command: its program and its arguments.
pub record Command : Type 0 where
  pub program : String
  pub arguments : List String

-- How a command ends, with its output or, as an error, what it says.
abbrev pub Exec : Type 0
Exec = Command → Result String
