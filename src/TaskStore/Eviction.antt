-- ===== src/TaskStore/Eviction.antt =====
-- internal/agent/taskstore.go, EvictTerminal: which tasks go.
use a2abridge.Prelude.{
  ltb, Bool-cases, if◌then◌else◌, any, Text, text_eq, text_eq_iff, lookup, UniqueKeys, ℕ, ◌-◌, ◌*◌,
  ◌≡◌, refl, inl, inr, Bool, false, ◌&&◌, Option, none, some, List, [], ◌∷◌, arith,
}
use a2abridge.TaskStore.Data.{TtlEntry, Tasks, Sdk}
use a2abridge.TaskStore.Versioned.{is_evictable, evict_tasks}

abbrev pub has_text : Text → List Text → Bool
has_text k l = any (λ j. text_eq j k) l

-- What the documentation promises: only a terminal task goes, thirty minutes after its last update.
abbrev pub is_over : Sdk → ℕ → TtlEntry → Bool
is_over sdk now e =
    sdk.terminal e.task.status.state && ltb (30 * 60 * 1_000_000_000) (now - e.last_updated)

is_evictable-is_over :
    (sdk : Sdk) (now : ℕ) (e : TtlEntry) → is_evictable sdk now e ≡ is_over sdk now e
unfolding is_evictable
is_evictable-is_over sdk now e = elim (Bool-cases (sdk.terminal e.task.status.state)) [
  | inl h ↦ simp h (ground arith)
  | inr h ↦ simp h refl
]

-- What a key is bound to after an eviction.
abbrev pub survivor : Sdk → ℕ → Option TtlEntry → Option TtlEntry
survivor sdk now none = none
survivor sdk now (some e) = if is_over sdk now e then none else some e

abbrev pub is_victim : Sdk → ℕ → Option TtlEntry → Bool
is_victim sdk now none = false
is_victim sdk now (some e) = is_over sdk now e

module _ (sdk : Sdk) where
  pub evict_missing :
      (now : ℕ) (k : Text) (s : Tasks)
      → lookup k s ≡ none
      → let (kept, evicted) = evict_tasks sdk now s in
        (lookup k kept ≡ none) × (has_text k evicted ≡ false)
  unfolding evict_tasks lookup
  evict_missing now k [] h = (refl, refl)
  evict_missing now k ((j, e) ∷ s) h = ground (arith, text_eq_iff j k, evict_missing now k s)

  -- A task survives an eviction exactly unless it is terminal and its last update is older than
  -- thirty minutes; its entry is unchanged; and the ids whose push configs are deleted are exactly
  -- those of the tasks that go. The map holds each key once, as a map does.
  pub evict_tasks_lem :
      (now : ℕ) (k : Text) (s : Tasks)
      → UniqueKeys s
      → let (kept, evicted) = evict_tasks sdk now s in
        (lookup k kept ≡ survivor sdk now (lookup k s))
        × (has_text k evicted ≡ is_victim sdk now (lookup k s))
  unfolding evict_tasks lookup
  evict_tasks_lem now k [] u = (refl, refl)
  evict_tasks_lem now k ((j, e) ∷ s) u = ground (
    arith,
    text_eq_iff j k,
    is_evictable-is_over sdk now e,
    evict_missing now j s u.0,
    evict_missing now k s,
    evict_tasks_lem now k s u.1,
  )
