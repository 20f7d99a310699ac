-- ===== src/Tests/Clis.antt =====
-- The theorem on internal/cli/install.go on a machine with two IDEs.
use a2abridge.Prelude.{codes, text_eq, ◌≡◌, refl, Bool, true, false, none, some, List, [], ◌∷◌}
use a2abridge.Strings.{is_space}
use a2abridge.Config.Values.{end}
use a2abridge.Config.Entry.{Spec}
use a2abridge.Config.Write.{Disk, Faults}
use a2abridge.Cli.Uninstall.{
  absent, in_place, Home, HomeFaults, Supervisor, UninstallFlags, uninstall_service, run_uninstall,
}
use a2abridge.Cli.Extras.{CopyFaults, Assets, Extras, install_extras}
use a2abridge.Cli.Doctor.{pass, warn, fail, run_doctor}
use a2abridge.Cli.Names.{auto_name}
use a2abridge.Cli.Install.{Ide, claude_code, codex, writer_slug, Slot, Codecs, run_install}
use a2abridge.Cli.Rehearsal.{rehearsals_keep}

-- Codecs that read every text as the empty object.
abbrev codecs : Codecs
codecs = record {
  json = record { nothing = end; decode = λ b. some (some end); encode = λ o. some (codes "{}") };
  marshal = λ v. some [];
  toml = record { decode = λ b. some end; encode = λ o. none };
}

abbrev spec : Spec
spec = record {
  key = codes "a2a";
  binary_path = codes "/bin/a2abridge";
  env = [];
  hook_command = codes "hook";
}

abbrev no_faults : Faults
no_faults = record {
  read = false;
  mkdir = false;
  create = false;
  write = false;
  chmod = false;
  close = false;
  rename = false;
  remove = false;
  backup_read = false;
  backup_write = none;
}

abbrev disk : Disk
disk = record {
  target = some (record { content = codes "{}"; mode = 384 });
  backup = none;
  leftovers = 0;
}

abbrev slot : Ide → Slot
slot ide = record {
  ide = ide;
  found = true;
  resolved = true;
  config = disk;
  faults = no_faults;
  settings = disk;
  settings_faults = no_faults;
  editor = true;
}

abbrev home : Home
home = record { skill = in_place; hook = in_place; state = absent }

abbrev home_faults : HomeFaults
home_faults = record { skill = false; hook = true; state = false }

abbrev slots : List Slot
slots = slot claude_code ∷ slot codex ∷ []

abbrev copy_faults : CopyFaults
copy_faults = record {
  home = false;
  embedded = false;
  stat = false;
  rename = false;
  mkdir = false;
  write = none;
}

abbrev assets : Assets
assets = record {
  skill = codes "new skill";
  hook = codes "new hook";
  skill_faults = copy_faults;
  hook_faults = copy_faults;
}

abbrev extras : Extras
extras = record {
  skill = record { current = some (codes "skill"); backups = [] };
  hook = record { current = none; backups = [] };
}

-- A service that is installed and runs, by these two flags.
abbrev supervisor : Supervisor (Bool × Bool)
supervisor = record {
  is_built = true;
  is_running = λ s. s.1;
  stop = λ s. (s.0, false);
  uninstall = λ s. (false, s.1);
}

abbrev flags : UninstallFlags
flags = record { purge = true; keep_service = false; dry_run = true }

rehearsals_keep_example :
    let (slots1, extras1, code1) =
      run_install codecs spec true true (codes "auto") assets slots extras in
    let (s2, slots2, home2, code2) =
      run_uninstall codecs supervisor flags home_faults (true, true) slots (some home) in
    ((slots1 ≡ slots) × (extras1 ≡ extras))
    × ((s2 ≡ (true, true)) × ((slots2 ≡ slots) × (home2 ≡ some home)))
rehearsals_keep_example =
    rehearsals_keep codecs spec supervisor true true flags assets home_faults (codes "auto")
      (true, true) slots extras (some home) refl refl

-- Without --dry-run both act.
skill_installed : (install_extras assets true true extras).0.skill.backups ≡ codes "skill" ∷ []
unfolding install_extras
skill_installed = refl

service_removed : uninstall_service supervisor false (true, true) ≡ (false, false)
unfolding uninstall_service
service_removed = refl

named : auto_name 7 (some (codes "/bin/claude")) (some (codes "ttys003")) ≡ codes "claude-ttys003"
unfolding auto_name is_space text_eq
named = refl

worst_is_fail : run_doctor (pass ∷ fail ∷ warn ∷ []) ≡ 1
unfolding run_doctor
worst_is_fail = refl

slug_of_cline : writer_slug (codes "Cline (VS Code)") ≡ codes "cline"
unfolding writer_slug is_space text_eq
slug_of_cline = refl

slug_of_codex : writer_slug (codes "Codex CLI") ≡ codes "codex"
unfolding writer_slug is_space text_eq
slug_of_codex = refl
