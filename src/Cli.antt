-- ===== src/Cli.antt =====
-- internal/cli: the installer and the uninstaller, the doctor, and the names of the bridge. Rehearsal
-- proves, the others model.
pub mod Extras
pub mod Install
pub mod Uninstall
pub mod Doctor
pub mod Names
pub mod Rehearsal
