-- ===== src/Config/Uninstall.antt =====
-- internal/ideconfig/remove.go, removeJSONMCPEntry: what an uninstall leaves of a configuration.
use a2abridge.Prelude.{Text, codes}

abbrev pub servers : Text
servers = codes "mcpServers"
