-- ===== src/Cli/Names.antt =====
-- internal/cli/bridge.go: the agent's name, its state directory and its lists. The output of ps and the
-- file system's answers are arguments.
use a2abridge.Prelude.{
  if◌then◌else◌, filter, Text, codes, text_eq, ℕ, Bool, not, ◌&&◌, ◌||◌, Option, none, some, List,
  [], ◌∷◌, ◌++◌, map,
}
use a2abridge.Strings.{has_prefix, trim_space, split}
use a2abridge.Strings.Words.{trim_prefix, after_last}
use a2abridge.Numbers.{itoa}

-- `splitCSV`
unfoldable pub split_csv : Text → List Text
unfolding split trim_space
split_csv [] = []
split_csv (c ∷ s) = filter (λ p. not (text_eq p [])) (map trim_space (split b',' (c ∷ s)))

-- strings.Contains
unfoldable pub contains : Text → Text → Bool
unfolding has_prefix
contains [] p = has_prefix [] p
contains (c ∷ s) p = has_prefix (c ∷ s) p || contains s p

-- `parentCommand` on what ps printed; none where ps is not there or fails.
unfoldable pub parent_command : Option Text → Text
unfolding trim_space after_last
parent_command none = []
parent_command (some out) = after_last b'/' (trim_space out)

unfoldable pub parent_tty : Option Text → Text
unfolding trim_space
parent_tty none = []
parent_tty (some out) = trim_space out

-- The switch of `autoName`.
unfoldable pub name_base : Text → Text
unfolding contains
name_base parent =
    if contains parent (codes "claude")
    then codes "claude"
    else if contains parent (codes "codex")
    then codes "codex"
    else if contains parent (codes "cursor")
    then codes "cursor"
    else if contains parent (codes "code")
    then codes "vscode"
    else if not (text_eq parent [])
    then parent
    else codes "agent"

unfoldable pub name_suffix : ℕ → Text → Text
unfolding itoa trim_prefix
name_suffix ppid tty =
    if text_eq tty [] || text_eq tty (codes "??")
    then codes "pid" ++ itoa ppid
    else trim_prefix tty (codes "/dev/")

-- `autoName`, by what ps prints of the parent's command and terminal.
unfoldable pub auto_name : ℕ → Option Text → Option Text → Text
unfolding name_base name_suffix parent_command parent_tty
auto_name ppid command tty =
    name_base (parent_command command) ++ (codes "-" ++ name_suffix ppid (parent_tty tty))

-- What the file system answers: whether a directory can be made, whether one is writable, and whether
-- the .gitignore in it is there or can be written.
pub record Answers : Type 0 where
  pub makes : Text → Bool
  pub is_writable : Text → Bool
  pub ignores : Text → Bool

abbrev pub with_ignore : Answers → Text → Option Text
with_ignore a dir = if a.ignores dir then some dir else none

-- The fallback of `resolveStateDir`, below the home directory; none is an error.
unfoldable pub fallback_dir : Answers → ℕ → Option Text → Option Text
unfolding itoa
fallback_dir a ppid none = none
fallback_dir a ppid (some home) =
    let dir = home ++ (codes "/.a2abridge/state/" ++ itoa ppid) in
    if a.makes dir then with_ignore a dir else none

unfoldable pub default_dir : Answers → ℕ → Option Text → Option Text → Option Text
unfolding fallback_dir
default_dir a ppid home none = fallback_dir a ppid home
default_dir a ppid home (some cwd) =
    if a.is_writable cwd && a.makes (cwd ++ codes "/.a2a")
    then with_ignore a (cwd ++ codes "/.a2a")
    else fallback_dir a ppid home

-- `resolveStateDir`
unfoldable pub resolve_state_dir : Answers → ℕ → Option Text → Option Text → Text → Option Text
unfolding default_dir
resolve_state_dir a ppid home cwd [] = default_dir a ppid home cwd
resolve_state_dir a ppid home cwd (c ∷ explicit) =
    if a.makes (c ∷ explicit) then with_ignore a (c ∷ explicit) else none
