-- ===== src/Config/Remove.antt =====
-- internal/ideconfig/remove.go: taking our entry and our hook out of a JSON configuration.
use a2abridge.Prelude.{
  if◌then◌else◌, is_some, Text, codes, text_eq, Bool, true, false, ◌&&◌, ◌||◌, Option, none, some,
}
use a2abridge.Strings.Words.{path_base}
use a2abridge.Config.Values.{
  Value, array, object, Items, nil, cons, Fields, end, field, find_field, value_at, put, remove,
  as_object, as_array,
}
use a2abridge.Config.Hooks.{command_of, hooks_of}
use a2abridge.Config.Write.{Disk, Faults, backup_file, Codec, read_json_object, write_json_object}

abbrev pub is_our_command : Text → Bool
is_our_command c = text_eq (path_base c) (codes "a2a-inbox-hook.sh")

-- The inner loop: the hooks that are not ours, and whether one was.
unfoldable pub filter_hooks : Items → Items × Bool
unfolding path_base
filter_hooks nil = (nil, false)
filter_hooks (cons h hooks) =
    let (rest, changed) = filter_hooks hooks in
    if is_our_command (command_of h) then (rest, true) else (cons h rest, changed)

-- One matcher entry: none where it is dropped, and whether it changed.
abbrev pub keep_entry : Fields → Items × Bool → Option Value × Bool
keep_entry entry (nil, changed) = (none, true)
keep_entry entry (cons h hooks, changed) =
    (some (object (put (codes "hooks") (array (cons h hooks)) entry)), changed)

unfoldable pub prune_entry : Value → Option Value × Bool
unfolding filter_hooks
prune_entry (object entry) = keep_entry entry (filter_hooks (hooks_of (object entry)))
prune_entry v = (some v, false)

abbrev pub keep_matcher : Option Value × Bool → Items × Bool → Items × Bool
keep_matcher (none, c) (out, changed) = (out, c || changed)
keep_matcher (some m, c) (out, changed) = (cons m out, c || changed)

-- The outer loop.
unfoldable pub prune_matchers : Items → Items × Bool
unfolding prune_entry
prune_matchers nil = (nil, false)
prune_matchers (cons m matchers) = keep_matcher (prune_entry m) (prune_matchers matchers)

abbrev pub with_matchers : Fields → Items × Bool → Fields × Bool
with_matchers hooks (out, false) = (hooks, false)
with_matchers hooks (nil, true) = (remove (codes "UserPromptSubmit") hooks, true)
with_matchers hooks (cons m out, true) =
    (put (codes "UserPromptSubmit") (array (cons m out)) hooks, true)

abbrev pub prune_list : Fields → Option Items → Fields × Bool
prune_list hooks none = (hooks, false)
prune_list hooks (some matchers) = with_matchers hooks (prune_matchers matchers)

-- `pruneUserPromptSubmitHook`
unfoldable pub prune_user_prompt_submit_hook : Fields → Fields × Bool
unfolding prune_matchers
prune_user_prompt_submit_hook hooks =
    prune_list hooks (as_array (value_at (codes "UserPromptSubmit") hooks))

-- A map back at its key, or the key deleted where the map is empty.
abbrev pub put_back : Text → Fields → Fields → Fields
put_back k end root = remove k root
put_back k (field l v fs) root = put k (object (field l v fs)) root

-- `if m, _ := root[k].(map[string]any); m != nil`: a map edited in place, and deleted if it is empty
-- afterwards; the flag is that of the edit.
abbrev pub edit_at : Text → (Fields → Fields × Bool) → Fields → Option Fields → Fields × Bool
edit_at k f root none = (root, false)
edit_at k f root (some fs) = (put_back k (f fs).0 root, (f fs).1)

abbrev pub edit : Text → (Fields → Fields × Bool) → Fields → Fields × Bool
edit k f root = edit_at k f root (as_object (value_at k root))

abbrev pub remove_server : Fields → Fields × Bool
remove_server servers = (remove (codes "a2a") servers, is_some (find_field (codes "a2a") servers))

-- What `removeJSONMCPEntry` does to the object that it read.
unfoldable pub strip_entries : Fields → Fields × Bool
unfolding prune_user_prompt_submit_hook remove put
strip_entries root =
    let (root', server) = edit (codes "mcpServers") remove_server root in
    let (root'', hook) = edit (codes "hooks") prune_user_prompt_submit_hook root' in
    (root'', server || hook)

module _ (codec : Codec Fields) (faults : Faults) where
  -- From the backup on; the flag says that there was no error.
  unfoldable pub rewrite_stripped : Disk → Fields → Disk × Bool
  unfolding backup_file write_json_object
  rewrite_stripped d root =
      let (d', ok) = backup_file faults d in
      if ok then write_json_object codec faults root d' else (d', false)

  unfoldable pub strip_root : Disk → Option Fields → Disk × Bool
  unfolding strip_entries rewrite_stripped
  strip_root d none = (d, false)
  strip_root d (some root) =
      let (root', changed) = strip_entries root in
      if changed then rewrite_stripped d root' else (d, true)

  -- `removeJSONMCPEntry`
  unfoldable pub remove_json_mcp_entry : Disk → Disk × Bool
  unfolding strip_root read_json_object
  remove_json_mcp_entry d =
      if is_some d.target then strip_root d (read_json_object codec faults d) else (d, true)

-- `removeClaudeEntries`, on ~/.claude.json and ~/.claude/settings.json: both are tried, and the flag
-- says that neither had an error.
unfoldable pub remove_claude_entries :
    Codec Fields → Faults → Faults → Disk → Disk → Disk × Disk × Bool
unfolding remove_json_mcp_entry
remove_claude_entries codec faults hook_faults config settings =
    let (config', ok) = remove_json_mcp_entry codec faults config in
    let (settings', hook_ok) = remove_json_mcp_entry codec hook_faults settings in
    (config', settings', ok && hook_ok)
