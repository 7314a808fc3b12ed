-- ===== src/Runtime.antt =====
-- internal/agentruntime/runtime.go: one run of the agent, from the message to its events.
pub mod Services
pub mod Lines
pub mod Listings
pub mod Commands
pub mod Events
pub mod Run
