-- ===== src/Tools.antt =====
-- internal/agent/mcp.go: the tools that the host calls. Data and Defs model the tools, Directory what they ask
-- the directory and how the heartbeat keeps the agent there; the others prove.
pub mod Data
pub mod Defs
pub mod Directory
pub mod Secrecy
pub mod Tracking
pub mod Order
pub mod Timeline
pub mod Presence
