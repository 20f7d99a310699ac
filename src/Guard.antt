-- ===== src/Guard.antt =====
-- internal/agent/guard.go: the checks in front of the A2A SDK's handlers. Version models the
-- protocol version, Defs the two bindings; the others prove.
pub mod Version
pub mod Defs
pub mod Subscribe
pub mod Pinning
pub mod Gate
