-- ===== src/Lib.antt =====
-- Mandau runs Docker Compose stacks on many machines. An agent (cmd/mandau-agent) on each machine holds
-- the stacks below a directory; a core (cmd/mandau-core, pkg/core) keeps a registry of the agents and
-- passes the stack calls of its clients on to them; plugins authenticate callers, decide what they may
-- do, log it, and manage services of the machine. This library models the Go code's own logic and leaves
-- aside generated gRPC code and the command line client.
--
-- Operation: pkg/agent/operation/manager.go, the store of running operations and the channels of those
--   who follow one. Every method holds the manager's mutex, so that a method is a step from a `Manager`
--   to the next; `none` is a panic. Operation.Calls gives the steps and `run`, a history of them. The
--   proofs: Registered and Invariant (the invariant `Inv`), Safety, Delivery and Subscription (what a
--   subscriber finds in its channel), Lifecycle (`Cancel`), Records.
-- Plugin: the data of pkg/plugin (types.go, interface.go, utils.go). Plugin.Registry: registry.go, over
--   plugins of any type that have the interfaces' operations.
-- Rbac: plugins/auth/rbac/plugin.go. The YAML decoder is an argument.
-- AuditFile: plugins/audit/file/plugin.go, the log of audit entries in one file a day. AuditFile.Lines,
--   Files and Writing follow the bytes of the files, History any number of entries and the query after
--   them, Rotation a file that is too large, Filters the filter of a query.
-- Config: pkg/config/config.go. Config.CoreStart: cmd/mandau-core/main.go with `NewCore` and `loadPlugins`
--   of pkg/core/server.go; Config.CoreDefaults their proofs. Config.Arguments, AgentId and AgentStart: how
--   cmd/mandau-agent/main.go reads its arguments, keeps its ID and comes to its settings. What the flag
--   package reads, the disk, the environment and YAML are arguments.
-- Core: pkg/core/server.go: the registry of agents (`RegisterAgent`, `Heartbeat`, `ListAgents`,
--   `monitorAgents`, `findAgentWithStack`, `updateAgentStacks`), Core.AgentId (the IDs that
--   `generateAgentID` makes and the host name read off one), Core.Connection (`getAgentConnection`, and
--   the timed histories of calls), Core.Alive (the registry as a machine for each agent), Core.Beating
--   (when that machine keeps the agent online), Core.Proxy
--   (the stack service), Core.Guards (the interceptors). What certificates, dialling and the agents
--   answer is an argument. A connection is a number, counted up at each dial. Times are natural numbers
--   of nanoseconds.
-- Stack: pkg/agent/stack/manager.go: loading and listing stacks, Stack.Diff (`DiffStack`),
--   Stack.Execution (`ApplyStack`, `RemoveStack` and the goroutines they start). An execution is the
--   list of its calls of the operation manager, which `call_of` of Operation.Delivery turns into steps
--   of that manager; Stack.Cancelled puts a `Cancel` between them. The disk, Docker and compose-go are
--   the arguments `Host` and `Machine`.
-- Agent: cmd/mandau-agent/main.go: Agent.Interceptors (the chains around each call), which take the
--   plugins of Plugin.Registry and Rbac, Agent.Follow (the loop that streams an operation's events),
--   Agent.Stacks (the handlers that answer for stacks at once),
--   Agent.Heartbeats (heartbeats and reconnection) and Agent.Forgotten, which puts the registry of Core
--   behind them.
-- Cron: plugins/host/cron/plugin.go; Cron.Listing reads one file, Cron.Globs the files that are found,
--   and Cron.Adding adds a job. Nginx: plugins/services/nginx/plugin.go, where the text that the
--   template writes is the record of its directives and nginx itself is an argument. Dns:
--   plugins/services/dns/plugin.go, the same way: a zone file is the list of its lines.
-- Services: Services.Firewall (plugins/services/firewall), Services.Systemd (plugins/services/systemd),
--   Services.Deploy (`DeployWebService` of pkg/agent/service/manager.go and `ObtainCertificate` of
--   plugins/security/acme), whose steps take those of Nginx and Cron. How a command ends is an argument.
--
-- A Go map is an association list whose order stands for the order of one range, so that what is proved
-- holds for every order; a directory is one too, and what `filepath.Glob` finds in it is an argument. No
-- loop needs fuel but the digits of a number, for which one more than the number is enough. Listeners'
-- channels hold ten events, as `make(chan Event, 10)` does.
--
-- Not modelled: TLS and gRPC themselves and the generated code, `Serve`, `NewAgent` and `Shutdown`, which
-- only set these up and down; the environment plugin, which reads facts of the machine by commands; the
-- vault plugin; the rest of the acme plugin; the agent's constant answers (`Register`, `Heartbeat`,
-- `GetCapabilities`), `GetHealth` and its handlers for services, and the command
-- line client.
pub mod Agent
pub mod AuditFile
pub mod Base
pub mod Config
pub mod Core
pub mod Cron
pub mod Dns
pub mod Nginx
pub mod Operation
pub mod Plugin
pub mod Rbac
pub mod Services
pub mod Stack
