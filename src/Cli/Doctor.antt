-- ===== src/Cli/Doctor.antt =====
-- internal/cli/doctor.go: the statuses of the checks and the exit code. The details and hints are left
-- out.
use a2abridge.Prelude.{
  ◌==◌, if◌then◌else◌, ℕ, ◌/◌, Bool, true, not, ◌&&◌, Option, none, some, List, [], ◌∷◌,
}
use a2abridge.Config.Entry.{Spec}
use a2abridge.Config.Write.{
  unresolved, not_installed, unreadable, backup_failed, write_failed, Result,
}
use a2abridge.Cli.Install.{Slot, Codecs, write_slot}

pub data Health : Type 0 where
  pass warn fail : Health

-- `checkBinary`
abbrev pub check_binary : Bool → Health
check_binary resolved = if resolved then pass else warn

-- What GET /agents gave: no answer, or a status and whether the body is a list.
pub data Ping : Type 0 where
  no_answer : Ping
  answered : ℕ → Bool → Ping

-- `checkDirectoryReachable`
unfoldable pub check_directory : Ping → Health
check_directory no_answer = fail
check_directory (answered status is_list) =
    if not (status / 100 == 2) then fail else if is_list then pass else warn

-- The switch of `checkIDEs` on the result of a rehearsal.
abbrev pub health_of : Result → Health
health_of res = elim res.error [
  | some not_installed ↦ warn
  | some unresolved ↦ fail
  | some unreadable ↦ fail
  | some backup_failed ↦ fail
  | some write_failed ↦ fail
  | none ↦ if res.skipped then pass else warn
]

-- `checkIDEs`; `detected` says whether Detect returns a path.
unfoldable pub check_ide : Codecs → Spec → Bool → Slot → Health
unfolding write_slot
check_ide codecs spec detected s =
    if detected then health_of (write_slot codecs spec true s.ide s).1 else warn

-- `checkSkill`, and `checkHook`, for which a file has permission bits and the system may be Windows.
abbrev pub check_skill : Bool → Health
check_skill present = if present then pass else warn

unfoldable pub check_hook : Bool → Option Bool → Health
check_hook windows none = warn
check_hook windows (some executable) = if not windows && not executable then warn else pass

-- The loop of `printResults`.
abbrev pub worse : Health → Health → Health
worse worst fail = fail
worse fail warn = fail
worse pass warn = warn
worse warn warn = warn
worse worst pass = worst

unfoldable pub worst_of : Health → List Health → Health
worst_of worst [] = worst
worst_of worst (h ∷ l) = worst_of (worse worst h) l

abbrev pub exit_code : Health → ℕ
exit_code fail = 1
exit_code warn = 0
exit_code pass = 0

-- `RunDoctor` behind its flags.
unfoldable pub run_doctor : List Health → ℕ
unfolding worst_of
run_doctor results = exit_code (worst_of pass results)
