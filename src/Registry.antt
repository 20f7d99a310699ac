-- ===== src/Registry.antt =====
-- internal/directory/registry.go: the local directory of agents. Defs models the registry and its
-- HTTP handlers; the others prove.
pub mod Defs
pub mod Invariant
pub mod Listed
