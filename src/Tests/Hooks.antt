-- ===== src/Tests/Hooks.antt =====
-- The theorems on the entries and hooks of internal/ideconfig on a concrete configuration.
use a2abridge.Prelude.{Text, codes, text_eq, ◌≡◌, refl, ◌⊎◌, true, false, not, ◌||◌, [], ◌∷◌}
use a2abridge.Strings.Words.{path_base}
use a2abridge.Config.Values.{string, array, object, nil, cons, Fields, end, field, find_field}
use a2abridge.Config.Entry.{Spec, nested_map, equal_json, set_mcp_server_entry}
use a2abridge.Config.Hooks.{register_hook}
use a2abridge.Config.Remove.{is_our_command}
use a2abridge.Config.Registered.{runs_hook}
use a2abridge.Config.Merged.{Inserted, our_registration, registered_hooks, register_hook_lem}
use a2abridge.Tests.Encoding.{encode, marshal}

abbrev hook : Text
hook = codes "/home/u/.a2abridge/a2a-inbox-hook.sh"

abbrev spec : Spec
spec = record {
  key = codes "a2a";
  binary_path = codes "/bin/a2abridge";
  env = (codes "A2A_BIND", codes "127.0.0.1:0") ∷ [];
  hook_command = hook;
}

-- One other hook under a matcher of its own, a hook of another event, and a theme.
abbrev root : Fields
root = field (codes "theme") (string (codes "dark")) (
    field (codes "hooks")
      (object (
        field (codes "UserPromptSubmit")
          (array (
            cons
              (object (
                field (codes "hooks")
                  (array (cons (object (field (codes "command") (string (codes "lint")) end)) nil))
                  end))
              nil))
          (field (codes "PreToolUse") (array (cons (string (codes "check")) nil)) end)))
      end)

abbrev registered : Fields
registered = (register_hook spec root).0

register_hook_lem_example :
    ((register_hook spec root).1 ≡ not (runs_hook hook root))
    × (((runs_hook hook root ≡ true) × (registered ≡ root))
        ⊎ ((runs_hook hook root ≡ false)
            × Inserted
                (our_registration hook)
                (registered_hooks root)
                (registered_hooks registered)))
    × (runs_hook (codes "lint") registered
        ≡ (runs_hook (codes "lint") root || text_eq hook (codes "lint")))
    × (find_field (codes "PreToolUse") (nested_map (codes "hooks") registered)
        ≡ find_field (codes "PreToolUse") (nested_map (codes "hooks") root))
    × (find_field (codes "theme") registered ≡ find_field (codes "theme") root)
    × (register_hook spec registered ≡ (registered, false))
register_hook_lem_example =
    register_hook_lem spec root (codes "lint") (codes "PreToolUse") (codes "theme")
      (unfold text_eq in refl) (unfold text_eq in refl) (unfold text_eq in refl)

ours : is_our_command hook ≡ true
unfolding path_base text_eq
ours = refl

-- The entry was missing, and is there afterwards.
entry_written : (set_mcp_server_entry marshal spec root).1 ≡ true
unfolding set_mcp_server_entry equal_json encode text_eq find_field
entry_written = refl
