-- ===== src/TaskStore/Versioned.antt =====
-- internal/agent/taskstore.go: Create, Update, Get and EvictTerminal. Each is one critical section.
use a2abridge.Prelude.{
  ltb, ◌==◌, if◌then◌else◌, length, Text, lookup, insert, ℕ, ◌+◌, ◌%◌, ◌^◌, Bool, not, ◌&&◌, Option,
  none, some, List, [], ◌∷◌,
}
use a2abridge.A2a.{Task}
use a2abridge.TaskStore.Data.{
  terminal_task_ttl, TtlEntry, Tasks, nil_task, clone_failed, already_exists, not_found,
  concurrent_modification, Result, ok, err, Sdk, status_in_utc,
}

abbrev pub int64_mod : ℕ
int64_mod = 2 ^ 64

-- A clone with its status in UTC, as Create and Update store it.
unfoldable pub stored_copy : Sdk → Task → Result Task
unfolding status_in_utc
stored_copy sdk task = elim (sdk.clone task) [
  | none ↦ err clone_failed
  | some cp ↦ ok (record cp { status = status_in_utc sdk.in_utc cp.status })
]

unfoldable pub delete_each {ℓ} : {C : Type ℓ} → (Text → C → C) → List Text → C → C
delete_each f [] c = c
delete_each f (id ∷ ids) c = delete_each f ids (f id c)

module _ (sdk : Sdk) where
  unfoldable pub create_copy : ℕ → Text → Task → Tasks → Tasks × Result ℕ
  create_copy now id cp s = elim (lookup id s) [
    | some _ ↦ (s, err already_exists)
    | none ↦ (insert id (record { task = cp; version = 1; last_updated = now }) s, ok 1)
  ]

  unfoldable pub create : ℕ → Option Task → Tasks → Tasks × Result ℕ
  unfolding create_copy stored_copy
  create now none s = (s, err nil_task)
  create now (some task) s = elim (stored_copy sdk task) [
    | err e ↦ (s, err e)
    | ok cp ↦ create_copy now task.id cp s
  ]

  abbrev pub next_version : ℕ → ℕ
  next_version v = (v + 1) % int64_mod

  unfoldable pub update_entry : ℕ → ℕ → Text → Task → TtlEntry → Tasks → Tasks × Result ℕ
  update_entry now prev id cp stored s =
      if not (prev == sdk.missing) && not (stored.version == prev)
      then (s, err concurrent_modification)
      else (
        insert id (record { task = cp; version = next_version stored.version; last_updated = now })
            s,
        ok (next_version stored.version),
      )

  unfoldable pub update_copy : ℕ → ℕ → Text → Task → Tasks → Tasks × Result ℕ
  unfolding update_entry
  update_copy now prev id cp s = elim (lookup id s) [
    | none ↦ (s, err not_found)
    | some stored ↦ update_entry now prev id cp stored s
  ]

  -- The request is its task and its PrevVersion; none is a nil request or a nil task.
  unfoldable pub update : ℕ → Option (Task × ℕ) → Tasks → Tasks × Result ℕ
  unfolding update_copy stored_copy
  update now none s = (s, err nil_task)
  update now (some (task, prev)) s = elim (stored_copy sdk task) [
    | err e ↦ (s, err e)
    | ok cp ↦ update_copy now prev task.id cp s
  ]

  unfoldable pub get : Text → Tasks → Result (Task × ℕ)
  get id s = elim (lookup id s) [
    | none ↦ err not_found
    | some stored ↦ elim (sdk.clone stored.task) [
      | none ↦ err clone_failed
      | some cp ↦ ok (cp, stored.version)
    ]
  ]

  unfoldable pub is_evictable : ℕ → TtlEntry → Bool
  is_evictable now e =
      sdk.terminal e.task.status.state && ltb (e.last_updated + terminal_task_ttl) now

  -- What the loop deletes from the map, and the ids that it collects.
  unfoldable pub evict_tasks : ℕ → Tasks → Tasks × List Text
  unfolding is_evictable
  evict_tasks now [] = ([], [])
  evict_tasks now ((k, e) ∷ s) =
      let (kept, evicted) = evict_tasks now s in
      if is_evictable now e then (kept, k ∷ evicted) else ((k, e) ∷ kept, evicted)

  -- The whole of EvictTerminal: the push configs are keyed by the task's id, and DeleteAll of the
  -- config store removes those of one task (or fails, and leaves them). A nil config store is one
  -- whose DeleteAll does nothing.
  unfoldable pub evict_terminal {ℓ} : {C : Type ℓ} → ℕ → (Text → C → C) → Tasks → C → Tasks × C × ℕ
  unfolding evict_tasks delete_each
  evict_terminal now delete_all s configs =
      let (kept, evicted) = evict_tasks now s in
      (kept, delete_each delete_all evicted configs, length evicted)
