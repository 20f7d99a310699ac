-- ===== src/Config.antt =====
-- internal/ideconfig/jsonmerge.go: reading and rewriting the JSON configurations of the IDEs.
pub mod Jsonc
pub mod Comments
pub mod Values
pub mod Entry
pub mod Hooks
pub mod Remove
pub mod Plain
pub mod Registered
pub mod Removed
pub mod Registrations
pub mod Merged
pub mod Strip
pub mod Uninstall
pub mod Settled
pub mod Write
pub mod Safety
