-- ===== src/Config/Hooks.antt =====
-- internal/ideconfig/claude.go: the UserPromptSubmit hook, and Claude Code's writer.
use a2abridge.Prelude.{
  if◌then◌else◌, is_some, Text, codes, text_eq, Bool, true, false, not, ◌||◌, Option, none, some,
  [],
}
use a2abridge.Config.Values.{
  Value, string, array, object, Items, nil, cons, Fields, end, field, value_at, put, as_object,
  fields_of, items_of, text_of, push,
}
use a2abridge.Config.Entry.{Spec, nested_map, set_mcp_server_entry}
use a2abridge.Config.Write.{Disk, Faults, Codec, Result, write_json_config}

abbrev pub command_of : Value → Text
command_of h = text_of (value_at (codes "command") (fields_of h))

-- Whether a hook is an object with the command, which is not the empty text where this is asked.
abbrev pub is_command : Text → Value → Bool
is_command c (object h) = text_eq (text_of (value_at (codes "command") h)) c
is_command c _ = false

-- The loop over the hooks of a matcher entry.
unfoldable pub has_command : Text → Items → Bool
has_command c nil = false
has_command c (cons h hooks) = is_command c h || has_command c hooks

abbrev pub hooks_of : Value → Items
hooks_of m = items_of (value_at (codes "hooks") (fields_of m))

-- The loop over the matcher entries.
unfoldable pub is_registered : Text → Items → Bool
unfolding has_command
is_registered c nil = false
is_registered c (cons m matchers) = has_command c (hooks_of m) || is_registered c matchers

abbrev pub matchers_of : Fields → Items
matchers_of hooks = items_of (value_at (codes "UserPromptSubmit") hooks)

abbrev pub missing_in : Text → Option Fields → Bool
missing_in c none = true
missing_in c (some hooks) = not (is_registered c (matchers_of hooks))

-- `needsHookUpdate`
unfoldable pub needs_hook_update : Text → Fields → Bool
unfolding is_registered
needs_hook_update c root =
    if text_eq c [] then false else missing_in c (as_object (value_at (codes "hooks") root))

abbrev pub our_entry : Text → Value
our_entry c =
    object
      (field (codes "type") (string (codes "command")) (field (codes "command") (string c) end))

abbrev pub our_matcher : Text → Value
our_matcher c = object (
    field (codes "matcher") (string (codes "*"))
      (field (codes "hooks") (array (cons (our_entry c) nil)) end))

-- Whether the loop of the merge takes a matcher entry.
abbrev pub matches_all : Value → Bool
matches_all (object fs) = text_eq (text_of (value_at (codes "matcher") fs)) (codes "*")
matches_all _ = false

-- A matcher entry with our hook appended, if it was not there.
unfoldable pub add_to_entry : Text → Value → Value
unfolding has_command
add_to_entry c m =
    if has_command c (hooks_of m)
    then m
    else object (put (codes "hooks") (array (push (our_entry c) (hooks_of m))) (fields_of m))

-- The loop of the merge, with the group that it appends where no entry matches everything.
unfoldable pub merge_matchers : Text → Items → Items
unfolding add_to_entry
merge_matchers c nil = cons (our_matcher c) nil
merge_matchers c (cons m matchers) =
    let rest = merge_matchers c matchers in
    if matches_all m then cons (add_to_entry c m) matchers else cons m rest

-- `mergeUserPromptSubmitHook`
unfoldable pub merge_user_prompt_submit_hook : Text → Fields → Fields
unfolding merge_matchers
merge_user_prompt_submit_hook c root =
    let hooks = nested_map (codes "hooks") root in
    put (codes "hooks")
      (object (put (codes "UserPromptSubmit") (array (merge_matchers c (matchers_of hooks))) hooks))
      root

-- The mutation of settings.json.
unfoldable pub register_hook : Spec → Fields → Fields × Bool
unfolding needs_hook_update merge_user_prompt_submit_hook
register_hook spec root =
    if needs_hook_update spec.hook_command root
    then (merge_user_prompt_submit_hook spec.hook_command root, true)
    else (root, false)

-- The result of the first file with what the second one told.
abbrev pub join_results : Result → Result → Result
join_results res hook =
    if is_some hook.error
    then record res { error = hook.error }
    else if hook.updated
    then record res { updated = true; skipped = false }
    else res

-- `Write` of claudeCodeWriter, on ~/.claude.json and ~/.claude/settings.json.
module _ (codec : Codec Fields) (marshal : Value → Option Text) (resolved : Bool) where
  -- From the result of the first file on.
  unfoldable pub write_hook : Faults → Bool → Spec → Disk → Disk × Result → Disk × Disk × Result
  unfolding write_json_config register_hook
  write_hook faults dry_run spec settings (config, res) =
      if is_some res.error || text_eq spec.hook_command []
      then (config, settings, res)
      else (let (settings', hook) =
            write_json_config codec resolved faults dry_run (register_hook spec) settings in
          (config, settings', join_results res hook))

  unfoldable pub claude_write : Faults → Faults → Bool → Spec → Disk → Disk → Disk × Disk × Result
  unfolding write_hook write_json_config set_mcp_server_entry
  claude_write faults hook_faults dry_run spec config settings =
      write_hook hook_faults dry_run spec settings
        (write_json_config codec resolved faults dry_run (set_mcp_server_entry marshal spec) config)
