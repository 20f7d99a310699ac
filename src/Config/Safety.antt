-- ===== src/Config/Safety.antt =====
-- internal/ideconfig/jsonmerge.go, writeJSONConfig: what a run does to the user's configuration.
use a2abridge.Prelude.{
  if◌then◌else◌, Bool-cases, Option-cases, is_some, Text, ℕ, ◌≡◌, refl, sym, ap, ◌∙◌, ◌≢◌, ◌⊎◌, inl,
  inr, Bool, true, false, Option, none, some, [], ◌∷◌, ◌++◌, arith,
}
use a2abridge.Config.Jsonc.{line_feed}
use a2abridge.Config.Write.{
  File, Disk, Faults, new_config_mode, mode_or, clean_up, write_file_atomic, backup_file, Codec,
  backup_failed, write_failed, Result, first_result, read_json_object, write_json_object,
  commit_object, commit, write_changed, write_root, write_json_config,
}

-- The ways that a run can end: with an error, with nothing to change, as a dry run, and with the
-- changed object written, in the old file's mode, behind a backup of the old file.
pub data Told {ℓ} {O : Type ℓ} (codec : Codec O) (faults : Faults) (dry_run : Bool)
    (mutate : O → O × Bool) (d : Disk) : Disk × Result → Type ℓ where
  refused :
      (d' : Disk) (res : Result)
      → is_some res.error ≡ true
      → res.updated ≡ false
      → d'.target ≡ d.target
      → Told codec faults dry_run mutate d (d', res)
  unchanged :
      (root : O) (res : Result)
      → read_json_object codec faults d ≡ some root
      → (mutate root).1 ≡ false
      → res.skipped ≡ true
      → res.updated ≡ false
      → Told codec faults dry_run mutate d (d, res)
  rehearsed :
      (root : O) (res : Result)
      → read_json_object codec faults d ≡ some root
      → (mutate root).1 ≡ true
      → dry_run ≡ true
      → res.updated ≡ true
      → Told codec faults dry_run mutate d (d, res)
  rewritten :
      (d' : Disk) (root : O) (b : Text) (res : Result)
      → read_json_object codec faults d ≡ some root
      → (mutate root).1 ≡ true
      → codec.encode (mutate root).0 ≡ some b
      → res.updated ≡ true
      → d'.target
        ≡ some (record { content = b ++ line_feed ∷ []; mode = mode_or new_config_mode d.target })
      → ((f : File) → d.target ≡ some f → d'.backup ≡ some f)
      → Told codec faults dry_run mutate d (d', res)

module _ (faults : Faults) where
  -- An atomic write leaves the old file or has written the new one, in the old one's mode.
  atomic :
      (bytes : Text) (default : ℕ) (d : Disk)
      → let (d', ok) = write_file_atomic faults bytes default d in
        (ok ≡ false × (d'.target ≡ d.target))
        ⊎ ((ok ≡ true)
            × (d'.target ≡ some (record { content = bytes; mode = mode_or default d.target }))
            × (d'.backup ≡ d.backup))
  unfolding write_file_atomic clean_up
  atomic bytes default d = ground arith

  backup-target : (d : Disk) → (backup_file faults d).0.target ≡ d.target
  unfolding backup_file
  backup-target d = ground arith

  backup-kept :
      (d : Disk) (f : File)
      → d.target ≡ some f
      → (backup_file faults d).1 ≡ true
      → (backup_file faults d).0.backup ≡ some f
  unfolding backup_file
  backup-kept d f e h = ground arith

module _ {ℓ} {O : Type ℓ} (codec : Codec O) (faults : Faults) where
  object-encoded :
      (o : O) (b : Text) (d : Disk)
      → codec.encode o ≡ some b
      → write_json_object codec faults o d
        ≡ write_file_atomic faults (b ++ line_feed ∷ []) new_config_mode d
  unfolding write_json_object
  object-encoded o b d e = rw (e, write_json_object)

  object-failed :
      (o : O) (d : Disk) → codec.encode o ≡ none → write_json_object codec faults o d ≡ (d, false)
  unfolding write_json_object
  object-failed o d e = rw (e, write_json_object)

  -- Writing an object keeps the target or replaces it by the encoding, and touches no backup.
  object-atomic :
      (o : O) (d : Disk)
      → let (d', ok) = write_json_object codec faults o d in
        ((ok ≡ false) × (d'.target ≡ d.target))
        ⊎ ((b : Text) × (codec.encode o ≡ some b)
            × (ok ≡ true)
            × (d'.target
                ≡ some (record {
                  content = b ++ line_feed ∷ [];
                  mode = mode_or new_config_mode d.target;
                }))
            × (d'.backup ≡ d.backup))
  object-atomic o d = elim (Option-cases (codec.encode o)) [
    | inl e ↦ rw (object-failed o d e) (inl (refl, refl))
    | inr (b, e) ↦
        rw (object-encoded o b d e) (elim (atomic faults (b ++ line_feed ∷ []) new_config_mode d) [
          | inl h ↦ inl h
          | inr h ↦ inr (b, e, h.0, h.1, h.2)
        ])
  ]

  module _ (dry_run : Bool) (mutate : O → O × Bool) where
    object-Told :
        (root : O) (res : Result) (d d' : Disk)
        → read_json_object codec faults d ≡ some root
        → (mutate root).1 ≡ true
        → res.updated ≡ false
        → d'.target ≡ d.target
        → ((f : File) → d.target ≡ some f → d'.backup ≡ some f)
        → Told codec faults dry_run mutate d (commit_object codec faults (mutate root).0 res d')
    unfolding commit_object
    object-Told root res d d' r m u t k =
        let o = (mutate root).0 in
        let z = (write_json_object codec faults o d').0 in
        elim (object-atomic o d') [
          | inl (e, h) ↦ rw e (refused z (record res { error = some write_failed }) refl u (h ∙ t))
          | inr (b, e, ok, h, kept) ↦ rw ok (
              rewritten z root b (record res { updated = true }) r m e refl
                (h
                  ∙ ap
                      (λ x. some (record {
                        content = b ++ line_feed ∷ [];
                        mode = mode_or new_config_mode x;
                      }))
                      t)
                (λ f g. kept ∙ k f g))
        ]

    commit-Told :
        (root : O) (d : Disk)
        → read_json_object codec faults d ≡ some root
        → (mutate root).1 ≡ true
        → Told codec faults dry_run mutate d
            (commit codec faults (mutate root).0 (first_result (is_some d.target) dry_run) d)
    unfolding commit
    commit-Told root d r m = elim (Option-cases d.target) [
      | inl e ↦ rw (ap is_some e) (
          object-Told root (first_result false dry_run) d d r m refl refl
            (λ f g. absurd (some-none f (sym g ∙ e))))
      | inr (f, e) ↦ rw (ap is_some e) (elim (Bool-cases (backup_file faults d).1) [
        | inl ok ↦ rw ok (
            object-Told root (record (first_result true dry_run) { backed_up = true }) d
              (backup_file faults d).0 r m refl (backup-target faults d)
              (λ g h. backup-kept faults d g h ok))
        | inr ko ↦ rw ko (
            refused (backup_file faults d).0
              (record (first_result true dry_run) { error = some backup_failed }) refl refl
              (backup-target faults d))
      ])
    ]
      where
        some-none : (f : File) → some f ≢ none
        some-none f h = cc

    changed-Told :
        (root : O) (d : Disk) (changed : Bool)
        → read_json_object codec faults d ≡ some root
        → (mutate root).1 ≡ changed
        → Told codec faults dry_run mutate d
            (write_changed codec faults dry_run d (mutate root).0 changed)
    unfolding write_changed
    changed-Told root d false r m = unchanged root _ r m refl refl
    changed-Told root d true r m = go dry_run refl
      where
        go :
            (b : Bool)
            → dry_run ≡ b
            → Told codec faults dry_run mutate d (
                if b
                then (d, record (first_result (is_some d.target) dry_run) { updated = true })
                else commit codec faults
                    (mutate root).0
                    (first_result (is_some d.target) dry_run)
                    d)
        go true e = rehearsed root _ r m e refl
        go false e = commit-Told root d r m

    root-Told :
        (d : Disk) (o : Option O)
        → read_json_object codec faults d ≡ o
        → Told codec faults dry_run mutate d (write_root codec faults dry_run mutate d o)
    unfolding write_root
    root-Told d none r = refused d _ refl refl refl
    root-Told d (some root) r = changed-Told root d (mutate root).1 r refl

    -- A configuration is never damaged. Whatever calls to the system fail, a run ends in one of four
    -- ways: with an error and the file as it was; with nothing to change and nothing touched; as a
    -- dry run with nothing touched; or with the file replaced as a whole by the encoding of the
    -- changed object and a line's end, its mode kept, and the old file, if any, in the backup.
    pub write_json_config-Told :
        (resolved : Bool) (d : Disk)
        → Told codec faults dry_run mutate d
            (write_json_config codec resolved faults dry_run mutate d)
    unfolding write_json_config
    write_json_config-Told false d = refused d _ refl refl refl
    write_json_config-Told true d = root-Told d (read_json_object codec faults d) refl
