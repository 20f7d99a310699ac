-- ===== src/Tests/TaskStores.antt =====
-- The theorems on internal/agent/taskstore.go on a concrete map of tasks.
use a2abridge.Strings.Order.{text_lt}
use mathlib.Core.List.{Perm}
use a2abridge.Prelude.{
  filter, pos, Text, codes, text_eq, lookup, ℕ, ◌+◌, String, ◌≡◌, refl, true, none, some, List, [],
  ◌∷◌, map, arith,
}
use a2abridge.A2a.{Task}
use a2abridge.TaskStore.Data.{terminal_task_ttl, TtlEntry, Tasks, ok}
use a2abridge.TaskStore.Versioned.{evict_tasks}
use a2abridge.TaskStore.Listing.{
  ListRequest, encode_page_token, decode_page_token, comes_before, insert_entry, sort_entries,
  timestamp_ok, matches_list_filter, valid_page_size, filtered_entries,
}
use a2abridge.TaskStore.Conflicts.{race, race_one_winner}
use a2abridge.TaskStore.Eviction.{has_text, survivor, is_victim, evict_tasks_lem}
use a2abridge.TaskStore.Order.{Descending}
use a2abridge.TaskStore.Token.{decode-encode_page_token}
use a2abridge.TaskStore.Indexed.{IsIndexed, Call, creates, updates, evicts, calls, calls-IsIndexed}
use a2abridge.TaskStore.Paging.{shown, walk, walk_complete}
use a2abridge.Tests.Instances.{
  completed, example_sdk, example_sdk_laws, example_codec, example_codec_laws,
}

abbrev task : String → Text → Task
task id state = record {
  id = codes id;
  context_id = [];
  status = record { state = state; message = none; timestamp = none };
  artifacts = [];
  history = [];
}

abbrev stored : ℕ → Task → TtlEntry
stored at t = record { task = t; version = 1; last_updated = at }

abbrev tasks : Tasks
tasks =
    (codes "a", stored 7 (task "a" completed))
    ∷ (codes "b", stored 9 (task "b" (1 ∷ [])))
    ∷ (codes "c", stored 7 (task "c" completed))
    ∷ []

abbrev request : ListRequest
request = record {
  page_size = pos 2;
  context_id = [];
  status = [];
  status_after = none;
  page_token = [];
  history_length = none;
  include_artifacts = true;
}

tasks-IsIndexed : IsIndexed tasks
unfolding lookup text_eq
tasks-IsIndexed = record {
  unique = (refl, (refl, (refl, tt)));
  under_id = (refl, (refl, (refl, tt)));
  named = ((λ e. cc), ((λ e. cc), ((λ e. cc), tt)));
}

walk_complete_example :
    (l : List TtlEntry) × (walk example_sdk example_codec [] request tasks 5 []
      ≡ some (shown request l))
    × Descending l
    × Perm l (filter (matches_list_filter [] request) (map (λ kv. kv.1) tasks))
unfolding valid_page_size filtered_entries sort_entries insert_entry comes_before text_lt
    matches_list_filter timestamp_ok text_eq lookup
walk_complete_example =
    walk_complete example_sdk example_codec [] request tasks 1 5 example_sdk_laws example_codec_laws
      tasks-IsIndexed refl (omega arith)

race_one_winner_example :
    race example_sdk (codes "a") 1 ((3, task "a" completed) ∷ (4, task "a" (1 ∷ [])) ∷ []) tasks ≡ 1
unfolding lookup text_eq
race_one_winner_example =
    race_one_winner example_sdk (codes "a") 1 3 (task "a" completed) ((4, task "a" (1 ∷ [])) ∷ [])
      tasks (stored 7 (task "a" completed)) example_sdk_laws (omega arith) refl (omega arith)

decode-encode_page_token_example :
    decode_page_token example_codec (encode_page_token example_codec 5 (codes "a_b"))
    ≡ ok (5, codes "a_b")
decode-encode_page_token_example =
    decode-encode_page_token example_codec 5 (codes "a_b") example_codec_laws (λ e. cc)

evict_tasks_lem_example :
    let (kept, evicted) = evict_tasks example_sdk (8 + terminal_task_ttl) tasks in
    (lookup (codes "a") kept
      ≡ survivor example_sdk (8 + terminal_task_ttl) (lookup (codes "a") tasks))
    × (has_text (codes "a") evicted
        ≡ is_victim example_sdk (8 + terminal_task_ttl) (lookup (codes "a") tasks))
evict_tasks_lem_example =
    evict_tasks_lem example_sdk (8 + terminal_task_ttl) (codes "a") tasks tasks-IsIndexed.unique

abbrev history : List Call
history =
    creates 3 (some (task "d" (1 ∷ [])))
    ∷ updates 5 (some (task "d" completed, 1))
    ∷ evicts (6 + terminal_task_ttl)
    ∷ []

calls-IsIndexed_example : IsIndexed (calls example_sdk history tasks)
calls-IsIndexed_example =
    calls-IsIndexed example_sdk history tasks example_sdk_laws ((λ e. cc), ((λ e. cc), (tt, tt)))
      tasks-IsIndexed
