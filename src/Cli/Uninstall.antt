-- ===== src/Cli/Uninstall.antt =====
-- internal/cli/uninstall.go, with RemoveMCPEntry of internal/ideconfig/ideconfig.go. The output is left
-- out, and the supervisor is a parameter.
use a2abridge.Prelude.{
  if◌then◌else◌, ℕ, Bool, true, not, ◌&&◌, ◌||◌, Option, none, some, List, [], ◌∷◌,
}
use a2abridge.Config.Remove.{remove_json_mcp_entry, remove_claude_entries}
use a2abridge.Config.Plain.{remove_codex_entry, remove_continue_file}
use a2abridge.Config.Write.{Disk}
use a2abridge.Cli.Install.{
  Ide, claude_code, codex, cursor, cline, continue_dev, gemini, antigravity, Slot, Codecs,
}

module _ (codecs : Codecs) where
  abbrev pub config_removed : Slot → Disk × Bool → Slot × Bool
  config_removed s (d, ok) = (record s { config = d }, ok)

  abbrev pub both_removed : Slot → Disk × Disk × Bool → Slot × Bool
  both_removed s (d, e, ok) = (record s { config = d; settings = e }, ok)

  unfoldable pub remove_json : Slot → Slot × Bool
  unfolding remove_json_mcp_entry
  remove_json s = config_removed s (remove_json_mcp_entry codecs.json s.faults s.config)

  -- `RemoveMCPEntry` on a path that is not empty; the flag says that there was no error.
  unfoldable pub remove_mcp_entry : Ide → Slot → Slot × Bool
  unfolding remove_json remove_codex_entry remove_continue_file remove_claude_entries
  remove_mcp_entry codex s = config_removed s (remove_codex_entry codecs.toml s.faults s.config)
  remove_mcp_entry continue_dev s = config_removed s (remove_continue_file s.faults s.config)
  remove_mcp_entry claude_code s =
      both_removed s
        (remove_claude_entries codecs.json s.faults s.settings_faults s.config s.settings)
  remove_mcp_entry cursor s = remove_json s
  remove_mcp_entry antigravity s = remove_json s
  remove_mcp_entry cline s = remove_json s
  remove_mcp_entry gemini s = remove_json s

  -- `removeMCPBlock`; the flag says that it did not fail.
  unfoldable pub remove_mcp_block : Bool → Slot → Slot × Bool
  unfolding remove_mcp_entry
  remove_mcp_block dry_run s = if dry_run then (s, true) else remove_mcp_entry s.ide s

  -- The loop over the writers that are found.
  unfoldable pub uninstall_slots : Bool → List Slot → List Slot × Bool
  unfolding remove_mcp_block
  uninstall_slots dry_run [] = ([], true)
  uninstall_slots dry_run (s ∷ slots) =
      let (rest, all_ok) = uninstall_slots dry_run slots in
      let (s', ok) = remove_mcp_block dry_run s in
      if s.found then (s' ∷ rest, ok && all_ok) else (s ∷ rest, all_ok)

-- A file or a directory: not there, in place, renamed to its backup, or deleted.
pub data Place : Type 0 where
  absent in_place renamed deleted : Place

-- `removePath`, where the rename or the deletion may fail.
unfoldable pub remove_path : Bool → Bool → Bool → Place → Place
remove_path dry_run purge fails in_place =
    if dry_run || fails then in_place else if purge then deleted else renamed
remove_path dry_run purge fails p = p

pub record Home : Type 0 where
  pub skill : Place
  pub hook : Place
  pub state : Place

-- Which renames and deletions fail.
pub record HomeFaults : Type 0 where
  pub skill : Bool
  pub hook : Bool
  pub state : Bool

abbrev pub remove_home : Bool → Bool → HomeFaults → Home → Home
remove_home dry_run purge fails h = record {
  skill = remove_path dry_run purge fails.skill h.skill;
  hook = remove_path dry_run purge fails.hook h.hook;
  state = if purge then remove_path dry_run true fails.state h.state else h.state;
}

-- The supervisor of the directory service, a library's: whether it can be set up, whether the service
-- runs, and what Stop and Uninstall do, their errors dropped.
pub record Supervisor (S : Type 0) : Type 0 where
  pub is_built : Bool
  pub is_running : S → Bool
  pub stop : S → S
  pub uninstall : S → S

-- `uninstallService`, which returns no error.
unfoldable pub uninstall_service : {S : Type 0} → Supervisor S → Bool → S → S
uninstall_service sv dry_run s =
    if dry_run || not sv.is_built
    then s
    else sv.uninstall (if sv.is_running s then sv.stop s else s)

pub record UninstallFlags : Type 0 where
  pub purge : Bool
  pub keep_service : Bool
  pub dry_run : Bool

-- `RunUninstall` behind its flags: none is a home directory that is not resolved.
unfoldable pub run_uninstall :
    {S : Type 0}
    → Codecs
    → Supervisor S
    → UninstallFlags
    → HomeFaults
    → S
    → List Slot
    → Option Home
    → S × List Slot × Option Home × ℕ
unfolding uninstall_service uninstall_slots remove_path
run_uninstall codecs sv fl fails s slots home =
    let s' = if fl.keep_service then s else uninstall_service sv fl.dry_run s in
    let (slots', ok) = uninstall_slots codecs fl.dry_run slots in
    elim home [
      | none ↦ (s', slots', none, 1)
      | some h ↦ (s', slots', some (remove_home fl.dry_run fl.purge fails h), if ok then 0 else 1)
    ]
