-- ===== src/Cli/Extras.antt =====
-- internal/cli/install.go: the skill and the hook that an install copies. A target is what stands at
-- its path and what was renamed out of its way, the newest first; the content of the skill stands for
-- its whole tree.
use a2abridge.Prelude.{if◌then◌else◌, Text, Bool, true, false, ◌||◌, Option, none, some, List, ◌∷◌}

pub record Target : Type 0 where
  pub current : Option Text
  pub backups : List Text

-- Which calls fail: the home directory, the embedded files, Stat, Rename, MkdirAll, and the copy, with
-- what it leaves at the path.
pub record CopyFaults : Type 0 where
  pub home : Bool
  pub embedded : Bool
  pub stat : Bool
  pub rename : Bool
  pub mkdir : Bool
  pub write : Option (Option Text)

-- os.Rename to the backup's name, whose timestamp is new; the flag says that it did not fail.
unfoldable pub rename_away : Bool → Target → Target × Bool
rename_away fails t = elim t.current [
  | none ↦ (t, true)
  | some x ↦
      if fails then (t, false) else (record { current = none; backups = x ∷ t.backups }, true)
]

-- `backupTreeOnce`
unfoldable pub backup_tree_once : CopyFaults → Target → Target × Bool
unfolding rename_away
backup_tree_once f t = if f.stat then (t, false) else rename_away f.rename t

-- The copy.
unfoldable pub copy_to : CopyFaults → Text → Target → Target × Bool
copy_to f new t = elim f.write [
  | none ↦ (record t { current = some new }, true)
  | some left ↦ (record t { current = left }, false)
]

-- The copy where the backup did not fail.
abbrev pub copy_after : CopyFaults → Text → Target × Bool → Target × Bool
copy_after f new (t, false) = (t, false)
copy_after f new (t, true) = copy_to f new t

-- `installSkill`, with the tree that it copies.
unfoldable pub install_skill : CopyFaults → Text → Bool → Target → Target × Bool
unfolding backup_tree_once copy_to
install_skill f new apply t =
    if f.home || f.embedded
    then (t, false)
    else if apply
    then copy_after f new (backup_tree_once f t)
    else (t, true)

-- `installHook`, with the script that it writes: where Stat fails, nothing is renamed.
unfoldable pub install_hook : CopyFaults → Text → Bool → Target → Target × Bool
unfolding rename_away copy_to
install_hook f new apply t =
    if f.home
    then (t, false)
    else if apply
    then (if f.mkdir
        then (t, false)
        else copy_after f new (if f.stat then (t, true) else rename_away f.rename t))
    else (t, true)

-- The skill and the hook, with their new contents and the calls that fail.
pub record Extras : Type 0 where
  pub skill : Target
  pub hook : Target

pub record Assets : Type 0 where
  pub skill : Text
  pub hook : Text
  pub skill_faults : CopyFaults
  pub hook_faults : CopyFaults

-- Both, where they are in scope: the hook is installed also where the skill failed.
unfoldable pub install_extras : Assets → Bool → Bool → Extras → Extras × Bool
unfolding install_skill install_hook
install_extras a wanted apply x =
    let (skill, skill_ok) = install_skill a.skill_faults a.skill apply x.skill in
    let (hook, hook_ok) = install_hook a.hook_faults a.hook apply x.hook in
    if wanted
    then (record { skill = skill; hook = hook }, if skill_ok then hook_ok else false)
    else (x, true)
