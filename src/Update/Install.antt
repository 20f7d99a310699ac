-- ===== src/Update/Install.antt =====
-- internal/cli/update.go, downloadAndReplace: the swap of the binary, with the calls that can fail.
use a2abridge.Prelude.{if◌then◌else◌, Text, Bool, true, false, Option, none, some}
use a2abridge.Update.Verify.{World, download}

-- The binary, the backup of this run, and the sibling at <dst>.new.
pub record Files : Type 0 where
  pub current : Option Text
  pub backup : Option Text
  pub fresh : Option Text

-- Which calls fail; a failed write leaves what it wrote so far, if it made the file at all.
pub record Faults : Type 0 where
  pub backup : Bool
  pub write : Option (Option Text)
  pub activate : Bool
  pub remove : Bool
  pub restore : Bool

-- `os.Rename(bak, dst)` with its error dropped.
unfoldable pub restore : Faults → Files → Files
restore faults f = if faults.restore then f else record f { current = f.backup; backup = none }

unfoldable pub activate : Faults → Text → Files → Files × Bool
unfolding restore
activate faults b f =
    if faults.activate
    then (restore faults (record f { fresh = if faults.remove then some b else none }), false)
    else (record f { current = some b; fresh = none }, true)

unfoldable pub write_fresh : Faults → Text → Files → Files × Bool
unfolding restore activate
write_fresh faults b f = elim faults.write [
  | some left ↦ (restore faults (record f { fresh = left }), false)
  | none ↦ activate faults b (record f { fresh = some b })
]

-- The swap by the new binary; the flag says that it succeeded.
unfoldable pub swap : Faults → Text → Files → Files × Bool
unfolding write_fresh
swap faults b f = elim f.current [
  | none ↦ (f, false)
  | some old ↦
      if faults.backup
      then (f, false)
      else write_fresh faults b (record f { current = none; backup = some old })
]

unfoldable pub replace_with : Faults → Option Text → Files → Files × Bool
unfolding swap
replace_with faults none f = (f, false)
replace_with faults (some b) f = swap faults b f

-- `downloadAndReplace`
unfoldable pub download_and_replace : World → Faults → Text → Text → Files → Files × Bool
unfolding replace_with
download_and_replace w faults base_url asset f = replace_with faults (download w base_url asset) f
