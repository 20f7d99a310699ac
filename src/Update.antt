-- ===== src/Update.antt =====
-- internal/cli/update.go: the self-update. Versions models the comparison of versions, Verify the
-- download and its checksum, Install the swap of the binary and Run the command; the others prove.
pub mod BuildInfo
pub mod Versions
pub mod Verify
pub mod Install
pub mod Run
pub mod Precedence
pub mod Rollback
pub mod Checksums
pub mod Exits
