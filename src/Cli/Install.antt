-- ===== src/Cli/Install.antt =====
-- internal/cli/install.go: the choice of the IDEs, the loop over their writers, and the exit code. The
-- output is left out, and with it the order in which the writers are listed. Each IDE stands with its
-- own files, and with the calls on them that fail.
use a2abridge.Prelude.{
  leb, ◌==◌, if◌then◌else◌, is_some, length, take, drop, filter, any, Text, codes, text_eq, ℕ, ◌-◌,
  Bool, true, false, not, ◌&&◌, ◌||◌, Option, none, some, List, [], ◌∷◌, map,
}
use a2abridge.Cli.Extras.{Extras, Assets, install_extras}
use a2abridge.Strings.{trim_space, split}
use a2abridge.Strings.Words.{cut_at, lower}
use a2abridge.Config.Values.{Value, Fields}
use a2abridge.Config.Entry.{Spec, set_mcp_server_entry}
use a2abridge.Config.Hooks.{claude_write}
use a2abridge.Config.Plain.{Toml, codex_write, continue_write}
use a2abridge.Config.Write.{
  Disk, Faults, Codec, not_installed, Result, first_result, write_json_config,
}

pub data Ide : Type 0 where
  claude_code codex cursor cline continue_dev gemini antigravity : Ide

-- `Name` of each writer.
abbrev pub ide_name : Ide → Text
ide_name claude_code = codes "Claude Code"
ide_name codex = codes "Codex CLI"
ide_name cursor = codes "Cursor"
ide_name cline = codes "Cline (VS Code)"
ide_name continue_dev = codes "Continue"
ide_name gemini = codes "Gemini CLI"
ide_name antigravity = codes "Antigravity CLI"

-- What `strings.Index(s, "(")` cuts off where it is positive.
abbrev pub before_paren : Text → Option (Text × Text) → Text
before_paren s none = s
before_paren s (some ([], b)) = s
before_paren s (some (c ∷ a, b)) = trim_space (c ∷ a)

-- strings.TrimSuffix
unfoldable pub trim_suffix : Text → Text → Text
trim_suffix s p =
    let n = length s - length p in
    if leb (length p) (length s) && text_eq (drop n s) p then take n s else s

-- `writerSlug`
unfoldable pub writer_slug : Text → Text
unfolding cut_at trim_space trim_suffix
writer_slug name =
    let s = map lower name in
    map (λ c. if c == b' ' then b'-' else c)
      (trim_suffix (before_paren s (cut_at b'(' s)) (codes " cli"))

abbrev pub means_all : Text → Bool
means_all s = text_eq s [] || (text_eq s (codes "auto") || text_eq s (codes "all"))

abbrev pub nonempty_names : List Text → List Text
nonempty_names l = filter (λ p. not (text_eq p [])) (map trim_space l)

-- `parseIDEFilter`, on ASCII; none is the nil map.
unfoldable pub parse_ide_filter : Text → Option (List Text)
unfolding trim_space split
parse_ide_filter flag =
    let s = trim_space (map lower flag) in
    if means_all s then none else some (nonempty_names (split b',' s))

-- `shouldInstallExtras`
unfoldable pub should_install_extras : Text → Bool
unfolding trim_space split
should_install_extras flag =
    let s = map lower (trim_space flag) in
    means_all s || any (λ p. text_eq (trim_space p) (codes "claude-code")) (split b',' s)

-- Whether `filterWriters` keeps a writer.
unfoldable pub is_wanted : Option (List Text) → Ide → Bool
unfolding writer_slug
is_wanted none ide = true
is_wanted (some names) ide = any (λ n. text_eq n (writer_slug (ide_name ide))) names

-- An IDE on this machine: whether its marker is there, and its files; only Claude Code has a second.
pub record Slot : Type 0 where
  pub ide : Ide
  pub found : Bool
  pub resolved : Bool
  pub config : Disk
  pub faults : Faults
  pub settings : Disk
  pub settings_faults : Faults
  pub editor : Bool  -- whether VS Code is installed

pub record Codecs : Type 0 where
  pub json : Codec Fields
  pub marshal : Value → Option Text
  pub toml : Toml

module _ (codecs : Codecs) (spec : Spec) (dry_run : Bool) where
  abbrev pub with_config : Slot → Disk × Result → Slot × Result
  with_config s (d, res) = (record s { config = d }, res)

  abbrev pub with_both : Slot → Disk × Disk × Result → Slot × Result
  with_both s (d, e, res) = (record s { config = d; settings = e }, res)

  -- The writers that only set the server's entry in a JSON file.
  unfoldable pub write_entry : Slot → Slot × Result
  unfolding write_json_config set_mcp_server_entry
  write_entry s = with_config s (
      write_json_config codecs.json s.resolved s.faults dry_run
        (set_mcp_server_entry codecs.marshal spec) s.config)

  -- `Write` of clineWriter
  unfoldable pub write_cline : Slot → Slot × Result
  unfolding write_entry
  write_cline s =
      if not s.resolved || (not (is_some s.config.target) && not s.editor)
      then (s, record (first_result false dry_run) { error = some not_installed })
      else write_entry s

  -- `Write` of each writer.
  unfoldable pub write_slot : Ide → Slot → Slot × Result
  unfolding write_entry write_cline claude_write codex_write continue_write
  write_slot claude_code s = with_both s (
      claude_write codecs.json codecs.marshal s.resolved s.faults s.settings_faults dry_run spec
        s.config s.settings)
  write_slot codex s =
      with_config s (codex_write codecs.toml s.faults s.resolved dry_run spec s.config)
  write_slot continue_dev s =
      with_config s (continue_write s.faults s.resolved dry_run spec s.config)
  write_slot cursor s = write_entry s
  write_slot cline s = write_cline s
  write_slot gemini s = write_entry s
  write_slot antigravity s = write_entry s

  -- Whether the loop writes an IDE's configuration: it is wanted, and auto mode skips what is not
  -- detected.
  unfoldable pub is_due : Text → Slot → Bool
  unfolding is_wanted parse_ide_filter
  is_due flag s =
      is_wanted (parse_ide_filter flag) s.ide && not (text_eq flag (codes "auto") && not s.found)

  -- The loop, with the results.
  unfoldable pub install_slots : Text → List Slot → List Slot × List Result
  unfolding write_slot is_due
  install_slots flag [] = ([], [])
  install_slots flag (s ∷ slots) =
      let (rest, results) = install_slots flag slots in
      let (s', res) = write_slot s.ide s in
      if is_due flag s then (s' ∷ rest, res ∷ results) else (s ∷ rest, results)

abbrev pub has_error : Result → Bool
has_error res = is_some res.error

-- From the choice of the writers on, with the skill and the hook.
unfoldable pub run_install :
    Codecs → Spec → Bool → Bool → Text → Assets → List Slot → Extras → List Slot × Extras × ℕ
unfolding install_slots install_extras should_install_extras is_wanted parse_ide_filter
run_install codecs spec apply dry_run flag assets slots extras =
    let applies = apply && not dry_run in
    let (slots', results) = install_slots codecs spec (not applies) flag slots in
    let (extras', ok) = install_extras assets (should_install_extras flag) applies extras in
    if any (λ s. is_wanted (parse_ide_filter flag) s.ide) slots
    then (slots', extras', if any has_error results || not ok then 1 else 0)
    else (slots, extras, 1)
