-- ===== src/Update/Run.antt =====
-- internal/cli/update.go, RunUpdate: the exit code and what happens to the binary.
use a2abridge.Prelude.{
  if◌then◌else◌, Text, codes, text_eq, ℕ, Bool, true, false, ◌||◌, Option, none, some, [], ◌∷◌,
  ◌++◌,
}
use a2abridge.Strings.Words.{trim_prefix}
use a2abridge.Update.Versions.{Sign, older, same, newer, compare_versions}
use a2abridge.Update.Verify.{World}
use a2abridge.Update.Install.{Files, Faults, download_and_replace}

-- What flag.Parse made of the arguments.
pub record Flags : Type 0 where
  pub repo : Text
  pub version : Text
  pub check : Bool

pub data Parsed : Type 0 where
  help bad_flags : Parsed
  options : Flags → Parsed

-- The running build: its version and platform, whether os.Executable answers, and what
-- resolveLatestTag returns for a repository (none is an error).
pub record Build : Type 0 where
  pub version : Text
  pub os : Text
  pub arch : Text
  pub has_executable : Bool
  pub latest_tag : Text → Option Text

-- `assetName`
unfoldable pub asset_name : Build → Text → Option Text
unfolding trim_prefix
asset_name b tag =
    let v = trim_prefix tag (codes "v") in
    if text_eq b.os (codes "darwin") || text_eq b.os (codes "linux")
    then some
        (codes "a2abridge_" ++ v ++ codes "_" ++ b.os ++ codes "_" ++ b.arch ++ codes ".tar.gz")
    else if text_eq b.os (codes "windows")
    then some (codes "a2abridge_" ++ v ++ codes "_windows_" ++ b.arch ++ codes ".zip")
    else none

abbrev pub base_url : Text → Text → Text
base_url repo target = codes "https://github.com/" ++ repo ++ codes "/releases/download/" ++ target

-- The exit code with the files.
abbrev pub exit_of : Files × Bool → Files × ℕ
exit_of (f, true) = (f, 0)
exit_of (f, false) = (f, 1)

-- The tag that was asked for, or the latest.
abbrev pub target_of : Build → Flags → Option Text
target_of build fl = if text_eq fl.version [] then build.latest_tag fl.repo else some fl.version

module _ (w : World) (build : Build) (faults : Faults) where
  unfoldable pub install_asset : Text → Text → Option Text → Files → Files × ℕ
  unfolding download_and_replace
  install_asset repo target none f = (f, 1)
  install_asset repo target (some asset) f =
      if build.has_executable
      then exit_of (download_and_replace w faults (base_url repo target) asset f)
      else (f, 1)

  -- From the test of --check on.
  unfoldable pub install : Flags → Text → Files → Files × ℕ
  unfolding install_asset asset_name
  install flags target f =
      if flags.check then (f, 1) else install_asset flags.repo target (asset_name build target) f

  -- By how the running version compares with the target.
  unfoldable pub update_from : Flags → Text → Option Sign → Files → Files × ℕ
  unfolding install
  update_from flags target (some same) f = (f, 0)
  update_from flags target (some newer) f = (f, if text_eq flags.version [] then 0 else 1)
  update_from flags target (some older) f = install flags target f
  update_from flags target none f = install flags target f

  unfoldable pub update_to : Flags → Option Text → Files → Files × ℕ
  unfolding update_from
  update_to flags none f = (f, 1)
  update_to flags (some []) f = (f, 1)
  update_to flags (some (c ∷ t)) f =
      update_from flags (c ∷ t) (compare_versions build.version (c ∷ t)) f

  -- `RunUpdate`
  unfoldable pub run_update : Parsed → Files → Files × ℕ
  unfolding update_to
  run_update help f = (f, 0)
  run_update bad_flags f = (f, 2)
  run_update (options fl) f = update_to fl (target_of build fl) f
