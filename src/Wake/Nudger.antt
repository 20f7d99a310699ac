-- ===== src/Wake/Nudger.antt =====
-- internal/agent/nudger.go. The commands that it runs are parameters; times are nanoseconds.
use a2abridge.Prelude.{
  ltb, ◌==◌, if◌then◌else◌, Text, codes, text_eq, ℕ, ◌+◌, ◌*◌, Bool, true, false, not, ◌&&◌, ◌||◌,
  Option, none, some, List, [], ◌∷◌, ◌++◌,
}
use a2abridge.Strings.{has_prefix, split}
use a2abridge.Strings.Words.{fields}
use a2abridge.Store.Entry.{second}

-- `Nudger`; none is the zero time.
pub record Nudger : Type 0 where
  pub mode : Text
  pub tty : Text
  pub socket : Text
  pub last_nudge_at : Option ℕ

-- `DetectNudgeMode`, by the variable TMUX and the operating system.
unfoldable pub detect_nudge_mode : Text → Text → Text
detect_nudge_mode tmux os =
    if not (text_eq tmux [])
    then codes "tmux"
    else if text_eq os (codes "darwin")
    then codes "terminal"
    else []

-- `NewNudger`
unfoldable pub new_nudger : Text → Text → Nudger
unfolding has_prefix
new_nudger mode tty = record {
  mode = mode;
  tty = if has_prefix tty (codes "/dev/") then tty else codes "/dev/" ++ tty;
  socket = [];
  last_nudge_at = none;
}

-- `NewDtachNudger`
abbrev pub new_dtach_nudger : Text → Nudger
new_dtach_nudger socket = record {
  mode = codes "dtach";
  tty = [];
  socket = socket;
  last_nudge_at = none;
}

abbrev pub coalesce_for : ℕ
coalesce_for = 3 * second

abbrev pub is_recent : ℕ → Option ℕ → Bool
is_recent now none = false
is_recent now (some t) = ltb now (t + coalesce_for)

-- strings.ReplaceAll of one rune.
unfoldable pub replace_rune : ℕ → Text → Text → Text
replace_rune c new [] = []
replace_rune c new (d ∷ s) =
    let rest = replace_rune c new s in if d == c then new ++ rest else d ∷ rest

-- The escaping of `nudgeTerminal`; 0x5c is the backslash and 0x22 the quote.
unfoldable pub escape : Text → Text
unfolding replace_rune
escape text = replace_rune b'\n' (codes " ") (
    replace_rune b'\r' (codes " ")
      (replace_rune 0x22 (0x5c ∷ 0x22 ∷ []) (replace_rune 0x5c (0x5c ∷ 0x5c ∷ []) text)))

-- The line of the script that types the text.
abbrev pub keystroke_line : Text → Text
keystroke_line esc = codes "  keystroke " ++ (0x22 ∷ (esc ++ 0x22 ∷ []))

-- The pane of the terminal in the list of tmux.
abbrev pub pane_of : Text → List Text → Option Text
pane_of tty (a ∷ b ∷ l) = if text_eq a tty then some b else none
pane_of tty _ = none

unfoldable pub find_pane : Text → List Text → Option Text
unfolding fields
find_pane tty [] = none
find_pane tty (line ∷ lines) =
    let rest = find_pane tty lines in
    elim (pane_of tty (fields line)) [ none ↦ rest | some b ↦ some b ]

-- The commands: list-panes, send-keys and dtach -p, which tell whether they succeed, and the script of
-- osascript, by the terminal and the escaped text.
pub record Commands : Type 0 where
  pub list_panes : Option Text
  pub send_keys : Text → Text → Bool
  pub dtach_push : Text → Text → Bool
  pub run_script : Text → Text → Bool

module _ (run : Commands) where
  abbrev pub send_to_pane : Text → Option Text → Bool
  send_to_pane text none = false
  send_to_pane text (some pane) = run.send_keys pane text

  -- `nudgeTmux`; the flag of it and of the others says that there was no error.
  unfoldable pub nudge_tmux : Text → Text → Option Text → Bool
  unfolding find_pane split
  nudge_tmux tty text none = false
  nudge_tmux tty text (some out) = send_to_pane text (find_pane tty (split b'\n' out))

  -- `nudgeDtach`
  unfoldable pub nudge_dtach : Text → Text → Bool
  nudge_dtach socket text =
      if text_eq socket []
      then false
      else run.dtach_push socket text && run.dtach_push socket (b'\r' ∷ [])

  -- `nudge`
  unfoldable pub nudge : Nudger → Text → Bool
  unfolding nudge_tmux nudge_dtach escape
  nudge n text =
      if text_eq n.mode (codes "terminal")
      then run.run_script n.tty (escape text)
      else if text_eq n.mode (codes "tmux")
      then nudge_tmux n.tty text run.list_panes
      else if text_eq n.mode (codes "dtach")
      then nudge_dtach n.socket text
      else false

-- `Handle` up to the nudge: the flag says that one is made. The clock is read twice.
unfoldable pub handle : ℕ → ℕ → Nudger → Nudger × Bool
handle now stamp n =
    if text_eq n.mode [] || is_recent now n.last_nudge_at
    then (n, false)
    else (record n { last_nudge_at = some stamp }, true)
