-- ===== src/TaskStore/Conflicts.antt =====
-- internal/agent/taskstore.go, Update: optimistic concurrency.
use a2abridge.Prelude.{
  ◌==◌, if◌then◌else◌, Text, text_eq_refl, lookup, lookup-insert, ℕ, ◌+◌, ◌<◌, ◌≡◌, refl, sym, ap,
  ◌∙◌, ◌≢◌, ◌⊎◌, inl, inr, Option, none, some, List, [], ◌∷◌, arith,
}
use a2abridge.A2a.{Task}
use a2abridge.TaskStore.Data.{
  TtlEntry, Tasks, concurrent_modification, Result, ok, err, Sdk, SdkLaws, status_in_utc,
}
use a2abridge.TaskStore.Versioned.{int64_mod, stored_copy, next_version, update_copy, update}

-- A task's stored version.
abbrev pub version_of : Text → Tasks → Option ℕ
version_of id s = elim (lookup id s) [ none ↦ none | some e ↦ some e.version ]

abbrev pub wins : Result ℕ → ℕ
wins (ok v) = 1
wins (err e) = 0

module _ (sdk : Sdk) where
  -- Writers that all read version `prev` of one task: each brings its time and its task.
  pub race : Text → ℕ → List (ℕ × Task) → Tasks → ℕ
  race id prev [] s = 0
  race id prev ((now, task) ∷ rest) s =
      let (s', r) = update sdk now (some (record task { id = id }, prev)) s in
      wins r + race id prev rest s'

  -- The task as it is stored.
  abbrev pub utc_copy : Task → Task
  utc_copy task = record task { status = status_in_utc sdk.in_utc task.status }

  pub stored_copy_lem : (task : Task) → SdkLaws sdk → stored_copy sdk task ≡ ok (utc_copy task)
  unfolding stored_copy
  stored_copy_lem task laws = rw (laws.clone-eq task, stored_copy)

  pub update-copy :
      (now prev : ℕ) (task : Task) (s : Tasks)
      → SdkLaws sdk
      → update sdk now (some (task, prev)) s ≡ update_copy sdk now prev task.id (utc_copy task) s
  unfolding update
  update-copy now prev task s laws = rw (stored_copy_lem task laws, update)

  -- One write against the version that the writer read.
  update_copy-version :
      (now prev : ℕ) (id : Text) (cp : Task) (stored : TtlEntry) (s : Tasks)
      → SdkLaws sdk
      → prev ≢ 0
      → lookup id s ≡ some stored
      → let (s', r) = update_copy sdk now prev id cp s in
        ((prev ≡ stored.version)
          × (version_of id s' ≡ some (next_version sdk stored.version))
          × (wins r ≡ 1))
        ⊎ ((prev ≢ stored.version) × (s' ≡ s) × (r ≡ err concurrent_modification))
  unfolding update_copy
  update_copy-version now prev id cp stored s laws p e =
      let v = next_version sdk stored.version in
      let entry : TtlEntry = record { task = cp; version = v; last_updated = now } in
      ground (arith, e, laws.missing_zero, lookup-insert id id entry s, text_eq_refl id)

  -- Once the version has moved on, nobody wins.
  race_lost :
      (id : Text) (prev : ℕ) (l : List (ℕ × Task)) (s : Tasks) (stored : TtlEntry)
      → SdkLaws sdk
      → prev ≢ 0
      → lookup id s ≡ some stored
      → prev ≢ stored.version
      → race id prev l s ≡ 0
  unfolding race
  race_lost id prev [] s stored laws p e n = refl
  race_lost id prev ((now, task) ∷ rest) s stored laws p e n =
      let cp = utc_copy (record task { id = id }) in
      rw (update-copy now prev (record task { id = id }) s laws)
        (elim (update_copy-version now prev id cp stored s laws p e) [
          | inl (same, _, _) ↦ absurd (n same)
          | inr (_, es, er) ↦
              rw (er, es) (omega (arith, race_lost id prev rest s stored laws p e n))
        ])

  moved_on : (v : ℕ) → v < int64_mod → v ≢ next_version sdk v
  moved_on v h = omega arith

  entry_of_version :
      (o : Option TtlEntry) (v : ℕ)
      → (elim o as (λ x. Option ℕ) [ none ↦ none | some e ↦ some e.version ]) ≡ some v
      → (e : TtlEntry) × (o ≡ some e) × (e.version ≡ v)
  entry_of_version none v h = cc
  entry_of_version (some e) v h = (e, refl, ground arith)

  race-cons :
      (id : Text) (prev now : ℕ) (task : Task) (l : List (ℕ × Task)) (s : Tasks)
      → SdkLaws sdk
      → let (s', r) = update_copy sdk now prev id (utc_copy (record task { id = id })) s in
        race id prev ((now, task) ∷ l) s ≡ wins r + race id prev l s'
  unfolding race
  race-cons id prev now task l s laws =
      ap (λ (r : Tasks × Result ℕ). wins r.1 + race id prev l r.0)
        (update-copy now prev (record task { id = id }) s laws)

  -- However many writers read the same version of a stored task and race to write it, with a
  -- PrevVersion that is not the missing one, exactly the first to arrive wins if the version is
  -- still the stored one, and none if it is not: no update is lost.
  pub race_one_winner :
      (id : Text) (prev now : ℕ) (task : Task) (l : List (ℕ × Task)) (s : Tasks) (stored : TtlEntry)
      → SdkLaws sdk
      → prev ≢ 0
      → lookup id s ≡ some stored
      → stored.version < int64_mod
      → race id prev ((now, task) ∷ l) s ≡ (if prev == stored.version then 1 else 0)
  race_one_winner id prev now task l s stored laws p e b =
      let cp = utc_copy (record task { id = id }) in
      rw (race-cons id prev now task l s laws)
        (elim (update_copy-version now prev id cp stored s laws p e) [
          | inl (same, ev, won) ↦
              let s' = (update_copy sdk now prev id cp s).0 in
              let (entry, el, ee) =
                entry_of_version (lookup id s') (next_version sdk stored.version) ev in
              let lost =
                race_lost id prev l s' entry laws p el
                  (λ x. moved_on stored.version b (sym same ∙ x ∙ ee)) in
              ground (arith, same, won, lost)
          | inr (differ, es, er) ↦
              rw (er, es) (ground (arith, differ, race_lost id prev l s stored laws p e differ))
        ])
