-- ===== src/Cli/Rehearsal.antt =====
-- internal/cli/install.go and uninstall.go with internal/ideconfig: what only tells what it would do.
use a2abridge.Cli.Uninstall.{
  remove_mcp_block, uninstall_slots, Place, absent, in_place, renamed, deleted, remove_path, Home,
  HomeFaults, remove_home, Supervisor, uninstall_service, UninstallFlags, run_uninstall,
}
use a2abridge.Cli.Extras.{
  Target, CopyFaults, install_skill, install_hook, Extras, Assets, install_extras,
}
use a2abridge.Cli.Install.{
  Ide, claude_code, codex, cursor, cline, continue_dev, gemini, antigravity, parse_ide_filter,
  should_install_extras, is_wanted, Slot, Codecs, write_entry, write_cline, write_slot, is_due,
  install_slots, run_install,
}
use a2abridge.Config.Values.{Value, Fields, value_at}
use a2abridge.Config.Entry.{Spec, nested_map, set_mcp_server_entry}
use a2abridge.Config.Hooks.{register_hook, write_hook, claude_write}
use a2abridge.Config.Plain.{
  commit_text, Toml, equal_toml_entry, codex_entry, read_toml, codex_root, codex_write,
  continue_yaml, is_written, continue_write,
}
use a2abridge.Prelude.{
  if◌then◌else◌, Bool-cases, is_some, any, Text, codes, text_eq, ◌≡◌, refl, ap, ◌∙◌, inl, inr, Bool,
  true, false, not, ◌&&◌, ◌||◌, Option, none, some, List, [], ◌∷◌,
}
use a2abridge.Config.Write.{
  Disk, Faults, Codec, Result, read_json_object, write_changed, write_root, write_json_config,
}

root_kept {ℓ} :
    {O : Type ℓ} (codec : Codec O) (faults : Faults) (mutate : O → O × Bool) (d : Disk)
    (o : Option O)
    → (write_root codec faults true mutate d o).0 ≡ d
unfolding write_root write_changed
root_kept codec faults mutate d none = refl
root_kept codec faults mutate d (some root) = elim (Bool-cases (mutate root).1) [
  | inl e ↦ rw e refl
  | inr e ↦ rw e refl
]

json_kept {ℓ} :
    {O : Type ℓ} (codec : Codec O) (resolved : Bool) (faults : Faults) (mutate : O → O × Bool)
    (d : Disk)
    → (write_json_config codec resolved faults true mutate d).0 ≡ d
unfolding write_json_config
json_kept codec false faults mutate d = refl
json_kept codec true faults mutate d =
    root_kept codec faults mutate d (read_json_object codec faults d)

hook_kept :
    (codec : Codec Fields) (marshal : Value → Option Text) (resolved : Bool) (g : Faults)
    (spec : Spec) (e : Disk) (p : Disk × Result)
    → let (d', e', res) = write_hook codec marshal resolved g true spec e p in (d' ≡ p.0) × (e' ≡ e)
unfolding write_hook
hook_kept codec marshal resolved g spec e (d, res) =
    elim (Bool-cases (is_some res.error || text_eq spec.hook_command [])) [
      | inl h ↦ simp h (refl, refl)
      | inr h ↦ simp h (refl, json_kept codec resolved g (register_hook spec) e)
    ]

claude_kept :
    (codec : Codec Fields) (marshal : Value → Option Text) (resolved : Bool) (f g : Faults)
    (spec : Spec) (d e : Disk)
    → let (d', e', res) = claude_write codec marshal resolved f g true spec d e in
      (d' ≡ d) × (e' ≡ e)
unfolding claude_write
claude_kept codec marshal resolved f g spec d e =
    let first = write_json_config codec resolved f true (set_mcp_server_entry marshal spec) d in
    let (config, settings) = hook_kept codec marshal resolved g spec e first in
    (config ∙ json_kept codec resolved f (set_mcp_server_entry marshal spec) d, settings)

codex_root_kept :
    (toml : Toml) (faults : Faults) (spec : Spec) (d : Disk) (o : Option Fields)
    → (codex_root toml faults true spec d o).0 ≡ d
unfolding codex_root commit_text
codex_root_kept toml faults spec d none = refl
codex_root_kept toml faults spec d (some root) =
    elim (Bool-cases (
      equal_toml_entry toml (value_at spec.key (nested_map (codes "mcp_servers") root))
        (codex_entry spec))) [ inl e ↦ rw e refl | inr e ↦ rw e refl ]

codex_kept :
    (toml : Toml) (faults : Faults) (resolved : Bool) (spec : Spec) (d : Disk)
    → (codex_write toml faults resolved true spec d).0 ≡ d
unfolding codex_write
codex_kept toml faults false spec d = refl
codex_kept toml faults true spec d = codex_root_kept toml faults spec d (read_toml toml faults d)

continue_kept :
    (faults : Faults) (resolved : Bool) (spec : Spec) (d : Disk)
    → (continue_write faults resolved true spec d).0 ≡ d
unfolding continue_write commit_text
continue_kept faults false spec d = refl
continue_kept faults true spec d = elim (Bool-cases (is_written faults (continue_yaml spec) d)) [
  | inl e ↦ rw e refl
  | inr e ↦ rw e refl
]

skill_kept : (f : CopyFaults) (new : Text) (t : Target) → (install_skill f new false t).0 ≡ t
unfolding install_skill
skill_kept f new t = elim (Bool-cases (f.home || f.embedded)) [
  | inl e ↦ rw e refl
  | inr e ↦ rw e refl
]

script_kept : (f : CopyFaults) (new : Text) (t : Target) → (install_hook f new false t).0 ≡ t
unfolding install_hook
script_kept f new t = elim (Bool-cases f.home) [ inl e ↦ rw e refl | inr e ↦ rw e refl ]

extras_kept : (a : Assets) (wanted : Bool) (x : Extras) → (install_extras a wanted false x).0 ≡ x
unfolding install_extras
extras_kept a true x =
    ap (λ t. record { skill = t; hook = (install_hook a.hook_faults a.hook false x.hook).0 })
      (skill_kept a.skill_faults a.skill x.skill)
    ∙ ap (λ t. record { skill = x.skill; hook = t }) (script_kept a.hook_faults a.hook x.hook)
extras_kept a false x = refl

service_kept :
    {S : Type 0} (sv : Supervisor S) (keep : Bool) (s : S)
    → (if keep then s else uninstall_service sv true s) ≡ s
unfolding uninstall_service
service_kept sv true s = refl
service_kept sv false s = refl

module _ (codecs : Codecs) (spec : Spec) where
  entry_kept : (s : Slot) → (write_entry codecs spec true s).0 ≡ s
  unfolding write_entry
  entry_kept s =
      ap (λ d. record s { config = d })
        (json_kept codecs.json s.resolved s.faults (set_mcp_server_entry codecs.marshal spec)
          s.config)

  slot_kept : (i : Ide) (s : Slot) → (write_slot codecs spec true i s).0 ≡ s
  unfolding write_slot write_cline
  slot_kept claude_code s =
      let (config, settings) =
        claude_kept codecs.json codecs.marshal s.resolved s.faults s.settings_faults spec s.config
          s.settings in
      ap
        (λ d. record s {
          config = d;
          settings =
              (claude_write codecs.json codecs.marshal s.resolved s.faults s.settings_faults true
                spec s.config s.settings).1;
        })
        config
      ∙ ap (λ e. record s { settings = e }) settings
  slot_kept codex s =
      ap (λ d. record s { config = d }) (codex_kept codecs.toml s.faults s.resolved spec s.config)
  slot_kept continue_dev s =
      ap (λ d. record s { config = d }) (continue_kept s.faults s.resolved spec s.config)
  slot_kept cursor s = entry_kept s
  slot_kept gemini s = entry_kept s
  slot_kept antigravity s = entry_kept s
  slot_kept cline s =
      elim (Bool-cases (not s.resolved || (not (is_some s.config.target) && not s.editor))) [
        | inl e ↦ rw e refl
        | inr e ↦ rw e (entry_kept s)
      ]

  slots_kept :
      (flag : Text) (slots : List Slot) → (install_slots codecs spec true flag slots).0 ≡ slots
  unfolding install_slots
  slots_kept flag [] = refl
  slots_kept flag (s ∷ slots) = elim (Bool-cases (is_due codecs spec true flag s)) [
    | inl e ↦ simp e (
        ap (λ t. t ∷ (install_slots codecs spec true flag slots).0) (slot_kept s.ide s)
        ∙ ap (λ l. s ∷ l) (slots_kept flag slots))
    | inr e ↦ simp e (ap (λ l. s ∷ l) (slots_kept flag slots))
  ]

  install_kept :
      (apply dry_run : Bool) (assets : Assets) (flag : Text) (slots : List Slot) (extras : Extras)
      → (apply && not dry_run) ≡ false
      → let (slots', extras', code) =
          run_install codecs spec apply dry_run flag assets slots extras in
        (slots' ≡ slots) × (extras' ≡ extras)
  unfolding run_install
  install_kept apply dry_run assets flag slots extras h =
      elim (Bool-cases (any (λ s. is_wanted (parse_ide_filter flag) s.ide) slots)) [
        | inl e ↦
            simp (e, h)
              (slots_kept flag slots, extras_kept assets (should_install_extras flag) extras)
        | inr e ↦ simp e (refl, refl)
      ]

  uninstalled : (slots : List Slot) → (uninstall_slots codecs true slots).0 ≡ slots
  unfolding uninstall_slots remove_mcp_block
  uninstalled [] = refl
  uninstalled (s ∷ slots) = elim (Bool-cases s.found) [
    | inl e ↦ simp e (ap (λ l. s ∷ l) (uninstalled slots))
    | inr e ↦ simp e (ap (λ l. s ∷ l) (uninstalled slots))
  ]

  path_kept : (purge fails : Bool) (p : Place) → remove_path true purge fails p ≡ p
  unfolding remove_path
  path_kept purge fails absent = refl
  path_kept purge fails in_place = refl
  path_kept purge fails renamed = refl
  path_kept purge fails deleted = refl

  state_kept :
      (purge fails : Bool) (p : Place) → (if purge then remove_path true true fails p else p) ≡ p
  state_kept true fails p = path_kept true fails p
  state_kept false fails p = refl

  home_kept : (purge : Bool) (fails : HomeFaults) (h : Home) → remove_home true purge fails h ≡ h
  home_kept purge fails h =
      simp
        (
          path_kept purge fails.skill h.skill,
          path_kept purge fails.hook h.hook,
          state_kept purge fails.state h.state,
        )
        refl

  -- Rehearsals change nothing: an install without --apply, or with --dry-run, leaves the
  -- configurations of every IDE, the skill and the hook as they are; an uninstall with --dry-run leaves
  -- the service, the configurations, the skill, the hook and the state as they are; whichever IDEs are
  -- chosen and whatever calls would fail.
  pub rehearsals_keep :
      {S : Type 0} (sv : Supervisor S) (apply dry_run : Bool) (fl : UninstallFlags)
      (assets : Assets) (fails : HomeFaults) (flag : Text) (s : S) (slots : List Slot)
      (extras : Extras) (home : Option Home)
      → (apply && not dry_run) ≡ false
      → fl.dry_run ≡ true
      → let (slots1, extras1, code1) =
          run_install codecs spec apply dry_run flag assets slots extras in
        let (s2, slots2, home2, code2) = run_uninstall codecs sv fl fails s slots home in
        ((slots1 ≡ slots) × (extras1 ≡ extras)) × ((s2 ≡ s) × ((slots2 ≡ slots) × (home2 ≡ home)))
  unfolding run_uninstall
  rehearsals_keep sv apply dry_run fl assets fails flag s slots extras none h k = (
    install_kept apply dry_run assets flag slots extras h,
    rw k (service_kept sv fl.keep_service s, (uninstalled slots, refl)),
  )
  rehearsals_keep sv apply dry_run fl assets fails flag s slots extras (some home) h k = (
    install_kept apply dry_run assets flag slots extras h,
    rw k (
      service_kept sv fl.keep_service s,
      (uninstalled slots, ap some (home_kept fl.purge fails home)),
    ),
  )
