-- ===== src/Config/Plain.antt =====
-- internal/ideconfig/codex.go and continue.go: the configurations that are not JSON, and the removal of
-- Codex's entry and of Continue's file in remove.go. The codec of TOML is a parameter.
use a2abridge.Prelude.{
  ◌==◌, if◌then◌else◌, is_some, any, Text, codes, text_eq, ℕ, Bool, true, false, not, ◌&&◌, ◌||◌,
  Option, none, some, List, [], ◌∷◌, ◌++◌,
}
use a2abridge.Strings.{trim_space}
use a2abridge.Strings.Order.{text_lt}
use a2abridge.Config.Values.{
  Value, string, array, object, nil, cons, Fields, end, field, find_field, value_at, put, remove,
  is_empty, as_object,
}
use a2abridge.Config.Entry.{Spec, env_object, nested_map, equal_encodings}
use a2abridge.Config.Remove.{put_back}
use a2abridge.Config.Write.{
  Disk, Faults, new_config_mode, write_file_atomic, backup_file, unresolved, unreadable,
  backup_failed, write_failed, Result, first_result,
}

-- What both writers end with: the bytes behind the backup, none where they could not be encoded.
unfoldable pub write_text : Faults → Option Text → Result → Disk → Disk × Result
unfolding write_file_atomic
write_text faults none res d = (d, record res { error = some write_failed })
write_text faults (some b) res d =
    let (d', ok) = write_file_atomic faults b new_config_mode d in
    if ok
    then (d', record res { updated = true })
    else (d', record res { error = some write_failed })

unfoldable pub commit_text : Faults → Bool → Option Text → Disk → Disk × Result
unfolding backup_file write_text
commit_text faults dry_run b d =
    let res = first_result (is_some d.target) dry_run in
    if dry_run
    then (d, record res { updated = true })
    else if res.found
    then (let (d', ok) = backup_file faults d in
        if ok
        then write_text faults b (record res { backed_up = true }) d'
        else (d', record res { error = some backup_failed }))
    else write_text faults b res d

-- toml.Unmarshal into an empty map, and toml.Encode of a table.
pub record Toml : Type 0 where
  pub decode : Text → Option Fields
  pub encode : Fields → Option Text

abbrev pub encode_value : Toml → Value → Option Text
encode_value toml (object fs) = toml.encode fs
encode_value toml _ = none

-- `equalTOMLEntry`, where the second value is a table: what is no table cannot be encoded.
unfoldable pub equal_toml_entry : Toml → Value → Fields → Bool
equal_toml_entry toml a b = equal_encodings (encode_value toml a) (toml.encode b)

-- `codexEntry`
unfoldable pub codex_entry : Spec → Fields
unfolding put
codex_entry spec =
    let env = env_object spec.env in
    let entry =
      field (codes "command") (string spec.binary_path)
        (field (codes "args") (array (cons (string (codes "bridge")) nil)) end) in
    if is_empty env then entry else put (codes "env") (object env) entry

module _ (toml : Toml) (faults : Faults) where
  abbrev pub parse_toml : Text → Option Fields
  parse_toml [] = some end
  parse_toml (c ∷ b) = toml.decode (c ∷ b)

  -- What is read of the file; none is an error.
  unfoldable pub read_toml : Disk → Option Fields
  read_toml d = elim d.target [
    | none ↦ some end
    | some f ↦ if faults.read then none else parse_toml f.content
  ]

  unfoldable pub codex_root : Bool → Spec → Disk → Option Fields → Disk × Result
  unfolding equal_toml_entry codex_entry commit_text find_field put
  codex_root dry_run spec d none =
      (d, record (first_result (is_some d.target) dry_run) { error = some unreadable })
  codex_root dry_run spec d (some root) =
      let servers = nested_map (codes "mcp_servers") root in
      if equal_toml_entry toml (value_at spec.key servers) (codex_entry spec)
      then (d, record (first_result (is_some d.target) dry_run) { skipped = true })
      else commit_text faults dry_run
          (toml.encode (
            put (codes "mcp_servers") (object (put spec.key (object (codex_entry spec)) servers))
              root))
          d

  -- `Write` of codexWriter, on a resolved path (false: the path is empty).
  unfoldable pub codex_write : Bool → Bool → Spec → Disk → Disk × Result
  unfolding read_toml codex_root
  codex_write resolved dry_run spec d =
      if not resolved
      then (d, record (first_result false dry_run) { error = some unresolved })
      else codex_root dry_run spec d (read_toml d)

  -- What `removeCodexEntry` writes behind the backup.
  unfoldable pub write_without : Option Text → Disk → Disk × Bool
  unfolding write_file_atomic
  write_without none d = (d, false)
  write_without (some b) d = write_file_atomic faults b new_config_mode d

  unfoldable pub without_codex : Disk → Fields → Option Fields → Disk × Bool
  unfolding backup_file write_without remove find_field put
  without_codex d root none = (d, true)
  without_codex d root (some servers) =
      if is_some (find_field (codes "a2a") servers)
      then (let (d', ok) = backup_file faults d in
          if ok
          then write_without
              (toml.encode (put_back (codes "mcp_servers") (remove (codes "a2a") servers) root)) d'
          else (d', false))
      else (d, true)

  unfoldable pub without_codex_in : Disk → Option Fields → Disk × Bool
  unfolding without_codex
  without_codex_in d none = (d, false)
  without_codex_in d (some root) =
      without_codex d root (as_object (value_at (codes "mcp_servers") root))

  -- `removeCodexEntry`; the flag says that there was no error.
  unfoldable pub remove_codex_entry : Disk → Disk × Bool
  unfolding without_codex_in read_toml
  remove_codex_entry d = if is_some d.target then without_codex_in d (read_toml d) else (d, true)

abbrev pub needs_quotes : ℕ → Bool
needs_quotes c = c == b':' || (c == b'#' || (c == 0x22 || (c == 0x27 || c == b'\n')))

abbrev pub escape_feed : Text → Text
escape_feed [] = []
escape_feed (c ∷ s) = if c == b'\n' then 0x5c ∷ b'n' ∷ escape_feed s else c ∷ escape_feed s

-- `yamlScalar`
unfoldable pub yaml_scalar : Text → Text
yaml_scalar [] = 0x22 ∷ 0x22 ∷ []
yaml_scalar (c ∷ s) =
    if any needs_quotes (c ∷ s) then escape_feed (0x22 ∷ c ∷ (s ++ 0x22 ∷ [])) else c ∷ s

-- The loop over `sortedKeys`: the entries by their keys, which are all different.
abbrev pub insert_key : Text × Text → List (Text × Text) → List (Text × Text)
insert_key e [] = e ∷ []
insert_key e (f ∷ l) = let rest = insert_key e l in if text_lt e.0 f.0 then e ∷ f ∷ l else f ∷ rest

abbrev pub sorted_keys : List (Text × Text) → List (Text × Text)
sorted_keys [] = []
sorted_keys (e ∷ l) = insert_key e (sorted_keys l)

abbrev pub with_feed : Text → Text
with_feed t = t ++ b'\n' ∷ []

unfoldable pub env_lines : List (Text × Text) → Text
unfolding yaml_scalar
env_lines [] = []
env_lines ((k, v) ∷ l) =
    with_feed (codes "      " ++ (k ++ (codes ": " ++ yaml_scalar v))) ++ env_lines l

abbrev pub env_block : List (Text × Text) → Text
env_block [] = []
env_block (e ∷ l) = with_feed (codes "    env:") ++ env_lines (sorted_keys (e ∷ l))

-- `continueYAML`
unfoldable pub continue_yaml : Spec → Text
unfolding env_lines text_lt
continue_yaml spec =
    with_feed (codes "name: a2a")
    ++ (with_feed (codes "version: 0.0.1")
        ++ (with_feed (codes "schema: v1")
            ++ (with_feed (codes "mcpServers:")
                ++ (with_feed (codes "  - name: a2a")
                    ++ (with_feed (codes "    command: " ++ yaml_scalar spec.binary_path)
                        ++ (with_feed (codes "    args:")
                            ++ (with_feed (codes "      - bridge") ++ env_block spec.env)))))))

-- Whether the file has the text already, but for white space around it.
unfoldable pub is_written : Faults → Text → Disk → Bool
unfolding trim_space
is_written faults b d = elim d.target [
  | none ↦ false
  | some f ↦ not faults.read && text_eq (trim_space f.content) (trim_space b)
]

-- `Write` of continueWriter
unfoldable pub continue_write : Faults → Bool → Bool → Spec → Disk → Disk × Result
unfolding is_written continue_yaml commit_text
continue_write faults resolved dry_run spec d =
    if not resolved
    then (d, record (first_result false dry_run) { error = some unresolved })
    else if is_written faults (continue_yaml spec) d
    then (d, record (first_result (is_some d.target) dry_run) { skipped = true })
    else commit_text faults dry_run (some (continue_yaml spec)) d

-- `removeContinueFile`; the flag says that there was no error.
unfoldable pub remove_continue_file : Faults → Disk → Disk × Bool
unfolding backup_file
remove_continue_file faults d =
    if is_some d.target
    then (let (d', ok) = backup_file faults d in
        if ok && not faults.remove then (record d' { target = none }, true) else (d', false))
    else (d, true)
