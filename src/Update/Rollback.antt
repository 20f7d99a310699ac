-- ===== src/Update/Rollback.antt =====
-- internal/cli/update.go, downloadAndReplace: the old binary is never lost.
use a2abridge.Prelude.{
  Bool-cases, Option-cases, Text, ◌≡◌, refl, inl, inr, Bool, true, false, Option, none, some,
}
use a2abridge.Update.Verify.{World, download}
use a2abridge.Update.Install.{
  Files, Faults, restore, activate, write_fresh, swap, replace_with, download_and_replace,
}

-- How a swap of the binary `old` can end: not at all or rolled back; with the rollback's rename
-- failed, so that the old binary is at the backup's name; or done, with the old binary kept there.
pub data Ended (faults : Faults) (old : Text) (b : Option Text) : Files × Bool → Type 0 where
  kept : (f : Files) → f.current ≡ some old → Ended faults old b (f, false)
  stranded :
      (f : Files) → faults.restore ≡ true → f.backup ≡ some old → Ended faults old b (f, false)
  replaced :
      (f : Files) (new : Text)
      → b ≡ some new
      → f.current ≡ some new
      → f.backup ≡ some old
      → f.fresh ≡ none
      → Ended faults old b (f, true)

module _ (faults : Faults) (old : Text) where
  restore-Ended :
      (b : Option Text) (f : Files)
      → f.backup ≡ some old
      → Ended faults old b (restore faults f, false)
  unfolding restore
  restore-Ended b f h = elim (Bool-cases faults.restore) [
    | inl e ↦ simp e (stranded f e h)
    | inr e ↦ simp e (kept (record f { current = f.backup; backup = none }) h)
  ]

  activate-Ended :
      (n : Text) (f : Files) → f.backup ≡ some old → Ended faults old (some n) (activate faults n f)
  unfolding activate
  activate-Ended n f h = elim (Bool-cases faults.activate) [
    | inl e ↦ simp e (restore-Ended (some n) _ h)
    | inr e ↦ simp e (replaced (record f { current = some n; fresh = none }) n refl refl h refl)
  ]

  write-Ended :
      (n : Text) (f : Files)
      → f.backup ≡ some old
      → Ended faults old (some n) (write_fresh faults n f)
  unfolding write_fresh
  write-Ended n f h = elim (Option-cases faults.write) [
    | inl e ↦ simp (e, write_fresh) (activate-Ended n (record f { fresh = some n }) h)
    | inr (left, e) ↦ simp (e, write_fresh) (restore-Ended (some n) (record f { fresh = left }) h)
  ]

  swap-Ended :
      (n : Text) (f : Files) → f.current ≡ some old → Ended faults old (some n) (swap faults n f)
  unfolding swap
  swap-Ended n f h = elim (Bool-cases faults.backup) [
    | inl e ↦ simp (h, e, swap) (kept f h)
    | inr e ↦
        simp (h, e, swap) (write-Ended n (record f { current = none; backup = some old }) refl)
  ]

  -- An update never loses the running binary. Whatever fails: the binary is still in place; or, only
  -- where the rename that rolls back failed as well, it is at the backup's name; or it was replaced
  -- by the binary of the checked archive, and the old one is at the backup's name.
  pub download_and_replace-Ended :
      (w : World) (url asset : Text) (f : Files)
      → f.current ≡ some old
      → Ended faults old (download w url asset) (download_and_replace w faults url asset f)
  unfolding download_and_replace
  download_and_replace-Ended w url asset f h = go (download w url asset)
    where
      go : (b : Option Text) → Ended faults old b (replace_with faults b f)
      go none = unfold replace_with in kept f h
      go (some n) = unfold replace_with in swap-Ended n f h
