-- ===== src/Config/Write.antt =====
-- internal/ideconfig/jsonmerge.go and backupFile of ideconfig.go: how a configuration is rewritten.
-- The file system is the configuration file, its backup of this run, and the number of temporary
-- files left behind; each system call that can fail has a flag. The path is assumed to be no
-- directory, and os.Stat to fail only where there is no file.
use a2abridge.Prelude.{
  leb, ◌==◌, if◌then◌else◌, is_some, Text, ℕ, ◌+◌, Bool, true, false, not, ◌&&◌, ◌||◌, Option, none,
  some, [], ◌∷◌, ◌++◌,
}
use a2abridge.Config.Jsonc.{line_feed, strip_json_comments, strip_trailing_commas}

pub record File : Type 0 where
  pub content : Text
  pub mode : ℕ

pub record Disk : Type 0 where
  pub target : Option File
  pub backup : Option File
  pub leftovers : ℕ

pub record Faults : Type 0 where
  pub read : Bool
  pub mkdir : Bool
  pub create : Bool
  pub write : Bool
  pub chmod : Bool
  pub close : Bool
  pub rename : Bool
  pub remove : Bool
  pub backup_read : Bool
  pub backup_write : Option (Option File)  -- the file that a failed write leaves

-- 0o600
abbrev pub new_config_mode : ℕ
new_config_mode = 384

abbrev pub mode_or : ℕ → Option File → ℕ
mode_or default none = default
mode_or default (some f) = f.mode

-- The removal of the temporary file, whose failure is ignored.
unfoldable pub clean_up : Faults → Disk → Disk
clean_up faults d = if faults.remove then record d { leftovers = d.leftovers + 1 } else d

-- `writeFileAtomic`; the flag says that it succeeded.
unfoldable pub write_file_atomic : Faults → Text → ℕ → Disk → Disk × Bool
unfolding clean_up
write_file_atomic faults bytes default d =
    if faults.mkdir
    then (d, false)
    else if faults.create
    then (d, false)
    else if faults.write
    then (clean_up faults d, false)
    else if faults.chmod
    then (clean_up faults d, false)
    else if faults.close
    then (clean_up faults d, false)
    else if faults.rename
    then (clean_up faults d, false)
    else (
      record d { target = some (record { content = bytes; mode = mode_or default d.target }) },
      true,
    )

-- `backupFile`
unfoldable pub backup_file : Faults → Disk → Disk × Bool
backup_file faults d = elim d.target [
  | none ↦ (d, true)
  | some f ↦ if faults.backup_read then (d, false) else elim faults.backup_write [
    | some left ↦ (record d { backup = left }, false)
    | none ↦ (record d { backup = some f }, true)
  ]
]

-- How far a byte is into the UTF-8 encoding of a space of more than one byte.
pub data Utf8Space : Type 0 where
  at_start after_c2 after_e1 after_e1_9a after_e2 after_e2_80 after_e2_81 after_e3 after_e3_80 :
      Utf8Space

unfoldable pub space_step : Utf8Space → ℕ → Option Utf8Space
space_step at_start c =
    if (leb 9 c && leb c 13) || c == 32
    then some at_start
    else if c == 0xc2
    then some after_c2
    else if c == 0xe1
    then some after_e1
    else if c == 0xe2
    then some after_e2
    else if c == 0xe3
    then some after_e3
    else none
space_step after_c2 c = if c == 0x85 || c == 0xa0 then some at_start else none
space_step after_e1 c = if c == 0x9a then some after_e1_9a else none
space_step after_e1_9a c = if c == 0x80 then some at_start else none
space_step after_e2 c =
    if c == 0x80 then some after_e2_80 else if c == 0x81 then some after_e2_81 else none
space_step after_e2_80 c =
    if (leb 0x80 c && leb c 0x8a) || (c == 0xa8 || (c == 0xa9 || c == 0xaf))
    then some at_start
    else none
space_step after_e2_81 c = if c == 0x9f then some at_start else none
space_step after_e3 c = if c == 0x80 then some after_e3_80 else none
space_step after_e3_80 c = if c == 0x80 then some at_start else none

-- Whether bytes.TrimSpace leaves nothing.
unfoldable pub only_spaces : Utf8Space → Text → Bool
unfolding space_step
only_spaces at_start [] = true
only_spaces _ [] = false
only_spaces m (c ∷ s) = elim (space_step m c) [ none ↦ false | some m' ↦ only_spaces m' s ]

-- The JSON objects of the source (map[string]any), with encoding/json. Decoding yields none on an
-- error, and some none for a null.
pub record Codec {ℓ} (O : Type ℓ) : Type ℓ where
  pub nothing : O  -- map[string]any{}
  pub decode : Text → Option (Option O)
  pub encode : O → Option Text

pub data Error : Type 0 where
  unresolved not_installed unreadable backup_failed write_failed : Error

-- `Result`, less the IDE's name and the paths.
pub record Result : Type 0 where
  pub found : Bool
  pub updated : Bool
  pub skipped : Bool
  pub dry_run : Bool
  pub backed_up : Bool
  pub error : Option Error

abbrev pub first_result : Bool → Bool → Result
first_result found dry_run = record {
  found = found;
  updated = false;
  skipped = false;
  dry_run = dry_run;
  backed_up = false;
  error = none;
}

module _ {ℓ} {O : Type ℓ} (codec : Codec O) where
  unfoldable pub parse_object : Text → Option O
  unfolding strip_json_comments strip_trailing_commas
  parse_object b = elim (codec.decode (strip_trailing_commas (strip_json_comments b))) [
    | none ↦ none
    | some none ↦ some codec.nothing
    | some (some o) ↦ some o
  ]

  -- `readJSONObject`; none is an error.
  unfoldable pub read_json_object : Faults → Disk → Option O
  unfolding parse_object only_spaces
  read_json_object faults d = elim d.target [
    | none ↦ some codec.nothing
    | some f ↦
        if faults.read
        then none
        else if only_spaces at_start f.content
        then some codec.nothing
        else parse_object f.content
  ]

  unfoldable pub write_json_object : Faults → O → Disk → Disk × Bool
  unfolding write_file_atomic
  write_json_object faults o d = elim (codec.encode o) [
    | none ↦ (d, false)
    | some b ↦ write_file_atomic faults (b ++ line_feed ∷ []) new_config_mode d
  ]

  -- The end of `writeJSONConfig`, from the call of writeJSONObject on.
  unfoldable pub commit_object : Faults → O → Result → Disk → Disk × Result
  unfolding write_json_object
  commit_object faults o res d =
      let (d', ok) = write_json_object faults o d in
      if ok
      then (d', record res { updated = true })
      else (d', record res { error = some write_failed })

  -- The same from the backup on.
  unfoldable pub commit : Faults → O → Result → Disk → Disk × Result
  unfolding backup_file commit_object
  commit faults o res d =
      if res.found
      then (let (d', ok) = backup_file faults d in
          if ok
          then commit_object faults o (record res { backed_up = true }) d'
          else (d', record res { error = some backup_failed }))
      else commit_object faults o res d

  -- What follows the mutation: the flag says that it changed the object.
  unfoldable pub write_changed : Faults → Bool → Disk → O → Bool → Disk × Result
  unfolding commit
  write_changed faults dry_run d o changed =
      let res = first_result (is_some d.target) dry_run in
      if not changed
      then (d, record res { skipped = true })
      else if dry_run
      then (d, record res { updated = true })
      else commit faults o res d

  unfoldable pub write_root : Faults → Bool → (O → O × Bool) → Disk → Option O → Disk × Result
  unfolding write_changed
  write_root faults dry_run mutate d none =
      (d, record (first_result (is_some d.target) dry_run) { error = some unreadable })
  write_root faults dry_run mutate d (some root) =
      let (o, changed) = mutate root in write_changed faults dry_run d o changed

  -- `writeJSONConfig` on a resolved path (false: the path is empty).
  unfoldable pub write_json_config : Bool → Faults → Bool → (O → O × Bool) → Disk → Disk × Result
  unfolding read_json_object write_root
  write_json_config resolved faults dry_run mutate d =
      if not resolved
      then (d, record (first_result false dry_run) { error = some unresolved })
      else write_root faults dry_run mutate d (read_json_object faults d)
