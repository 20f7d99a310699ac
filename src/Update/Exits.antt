-- ===== src/Update/Exits.antt =====
-- internal/cli/update.go, RunUpdate: what --check answers, and that there is no downgrade.
use a2abridge.Prelude.{Text, Bool, true, false, Option, none, some, []}
use a2abridge.Update.Versions.{Sign, older, same, newer}
use a2abridge.Update.Run.{Flags}

-- Whether the running version is behind a release, by how they compare: a version that does not parse
-- is older than any release.
abbrev pub is_behind : Option Sign → Bool
is_behind none = true
is_behind (some older) = true
is_behind (some same) = false
is_behind (some newer) = false

-- `update --check` of a repository.
abbrev pub check_of : Text → Flags
check_of repo = record { repo = repo; version = []; check = true }

abbrev pub is_same : Option Sign → Bool
is_same (some same) = true
is_same (some older) = false
is_same (some newer) = false
is_same none = false
