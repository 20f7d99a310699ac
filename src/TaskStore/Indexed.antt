-- ===== src/TaskStore/Indexed.antt =====
-- internal/agent/taskstore.go: Create, Update and EvictTerminal keep the map as List assumes it.
use a2abridge.Prelude.{
  ◌==◌, Bool-cases, Option-cases, All, insert-All, Text, text_eq_iff, lookup, insert, UniqueKeys,
  insert-UniqueKeys, ℕ, ◌≡◌, refl, ◌≢◌, inl, inr, not, ◌&&◌, Option, none, some, List, [], ◌∷◌, map,
  arith,
}
use a2abridge.A2a.{Task}
use a2abridge.TaskStore.Data.{TtlEntry, Tasks, Sdk, SdkLaws}
use a2abridge.TaskStore.Versioned.{
  create_copy, create, update_entry, update_copy, update, is_evictable, evict_tasks,
}
use a2abridge.TaskStore.Order.{DistinctIds}
use a2abridge.TaskStore.Conflicts.{utc_copy, stored_copy_lem, update-copy}
use a2abridge.TaskStore.Eviction.{evict_missing}

-- A store as Create and Update leave it: one entry to a task id, none under the empty id.
pub record IsIndexed (s : Tasks) : Type 0 where
  pub unique : UniqueKeys s
  pub under_id : All (λ kv. kv.1.task.id ≡ kv.0) s
  pub named : All (λ kv. kv.0 ≢ []) s

abbrev pub entries : Tasks → List TtlEntry
entries s = map (λ kv. kv.1) s

missing-differs :
    (k : Text) (s : Tasks)
    → lookup k s ≡ none
    → All (λ kv. kv.1.task.id ≡ kv.0) s
    → All (λ x. x.task.id ≢ k) (entries s)
unfolding lookup
missing-differs k [] h i = tt
missing-differs k ((j, e) ∷ s) h i =
    (λ q. ground (arith, text_eq_iff j k, i.0, q), missing-differs k s (ground arith) i.1)

pub entries-DistinctIds :
    (s : Tasks) → UniqueKeys s → All (λ kv. kv.1.task.id ≡ kv.0) s → DistinctIds (entries s)
entries-DistinctIds [] u i = tt
entries-DistinctIds ((k, e) ∷ s) u i =
    (rw i.0 (missing-differs k s u.0 i.1), entries-DistinctIds s u.1 i.1)

pub entries-named :
    (s : Tasks)
    → All (λ kv. kv.1.task.id ≡ kv.0) s
    → All (λ kv. kv.0 ≢ []) s
    → All (λ x. x.task.id ≢ []) (entries s)
entries-named [] i n = tt
entries-named ((k, e) ∷ s) i n = (rw i.0 n.0, entries-named s i.1 n.1)

-- A call that changes the map, with its time.
pub data Call : Type 0 where
  creates : ℕ → Option Task → Call
  updates : ℕ → Option (Task × ℕ) → Call
  evicts : ℕ → Call

-- A call whose task, if it has one, has an id.
abbrev pub Named : Call → Type 0
Named (creates now none) = Unit
Named (creates now (some t)) = t.id ≢ []
Named (updates now none) = Unit
Named (updates now (some (t, prev))) = t.id ≢ []
Named (evicts now) = Unit

module _ (sdk : Sdk) where
  unfoldable pub call : Call → Tasks → Tasks
  call (creates now t) s = (create sdk now t s).0
  call (updates now r) s = (update sdk now r s).0
  call (evicts now) s = (evict_tasks sdk now s).0

  unfoldable pub calls : List Call → Tasks → Tasks
  calls [] s = s
  calls (c ∷ l) s = calls l (call c s)

insert-IsIndexed :
    (e : TtlEntry) (k : Text) (s : Tasks)
    → e.task.id ≡ k
    → k ≢ []
    → IsIndexed s
    → IsIndexed (insert k e s)
insert-IsIndexed e k s i n h = record {
  unique = insert-UniqueKeys k e s h.unique;
  under_id = insert-All (λ kv. kv.1.task.id ≡ kv.0) k e s i h.under_id;
  named = insert-All (λ kv. kv.0 ≢ []) k e s n h.named;
}

module _ (sdk : Sdk) where
  create_copy-IsIndexed :
      (now : ℕ) (t : Task) (s : Tasks)
      → t.id ≢ []
      → IsIndexed s
      → IsIndexed (create_copy sdk now t.id t s).0
  unfolding create_copy
  create_copy-IsIndexed now t s n h = elim (Option-cases (lookup t.id s)) [
    | inl e ↦ rw (e, create_copy) (insert-IsIndexed _ t.id s refl n h)
    | inr (stored, e) ↦ rw (e, create_copy) h
  ]

  update_copy-IsIndexed :
      (now prev : ℕ) (t : Task) (s : Tasks)
      → t.id ≢ []
      → IsIndexed s
      → IsIndexed (update_copy sdk now prev t.id t s).0
  unfolding update_copy update_entry
  update_copy-IsIndexed now prev t s n h = elim (Option-cases (lookup t.id s)) [
    | inl e ↦ rw (e, update_copy) h
    | inr (stored, e) ↦
        rw (e, update_copy)
          (elim (Bool-cases (not (prev == sdk.missing) && not (stored.version == prev))) [
            | inl c ↦ rw (c, update_entry) h
            | inr c ↦ rw (c, update_entry) (insert-IsIndexed _ t.id s refl n h)
          ])
  ]

  create-copy :
      (now : ℕ) (t : Task) (s : Tasks)
      → SdkLaws sdk
      → create sdk now (some t) s ≡ create_copy sdk now t.id (utc_copy sdk t) s
  unfolding create
  create-copy now t s laws = rw (stored_copy_lem sdk t laws, create)

  evict-All {ℓ} :
      (P : Text × TtlEntry → Type ℓ) (now : ℕ) (s : Tasks)
      → All P s
      → All P (evict_tasks sdk now s).0
  unfolding evict_tasks
  evict-All P now [] h = tt
  evict-All P now ((k, e) ∷ s) h = unfold is_evictable in ground (arith, evict-All P now s h.1)

  evict-UniqueKeys : (now : ℕ) (s : Tasks) → UniqueKeys s → UniqueKeys (evict_tasks sdk now s).0
  unfolding evict_tasks
  evict-UniqueKeys now [] u = tt
  evict-UniqueKeys now ((k, e) ∷ s) u =
      unfold is_evictable in
      ground (arith, evict_missing sdk now k s u.0, evict-UniqueKeys now s u.1)

  call-IsIndexed :
      (c : Call) (s : Tasks) → SdkLaws sdk → Named c → IsIndexed s → IsIndexed (call sdk c s)
  unfolding call
  call-IsIndexed (creates now none) s laws n h = unfold create in h
  call-IsIndexed (creates now (some t)) s laws n h =
      rw (create-copy now t s laws, call) (create_copy-IsIndexed now (utc_copy sdk t) s n h)
  call-IsIndexed (updates now none) s laws n h = unfold update in h
  call-IsIndexed (updates now (some (t, prev))) s laws n h =
      rw (update-copy sdk now prev t s laws, call)
        (update_copy-IsIndexed now prev (utc_copy sdk t) s n h)
  call-IsIndexed (evicts now) s laws n h = record {
    unique = evict-UniqueKeys now s h.unique;
    under_id = evict-All (λ kv. kv.1.task.id ≡ kv.0) now s h.under_id;
    named = evict-All (λ kv. kv.0 ≢ []) now s h.named;
  }

  -- Whatever calls of Create, Update and EvictTerminal a store has seen, on tasks that have an id:
  -- each task id has one entry, every entry is filed under the id of its task, and no entry under
  -- the empty id.
  pub calls-IsIndexed :
      (l : List Call) (s : Tasks)
      → SdkLaws sdk
      → All Named l
      → IsIndexed s
      → IsIndexed (calls sdk l s)
  unfolding calls
  calls-IsIndexed [] s laws n h = h
  calls-IsIndexed (c ∷ l) s laws n h =
      calls-IsIndexed l (call sdk c s) laws n.1 (call-IsIndexed c s laws n.0 h)
