-- ===== src/Agent.antt =====
-- cmd/mandau-agent/main.go: what stands between a call of the agent and its handler, and the streams
-- that follow an operation.
pub mod Interceptors
pub mod Access
pub mod Roles
pub mod Follow
pub mod Following
pub mod Stacks
pub mod Heartbeats
pub mod Forgotten
mod Tests
