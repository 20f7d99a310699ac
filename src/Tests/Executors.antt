-- ===== src/Tests/Executors.antt =====
-- The theorems on internal/agent/executor.go on a concrete exchange.
use a2abridge.Prelude.{codes, text_eq, lookup, ◌≡◌, refl, true, false, none, some, List, [], ◌∷◌}
use a2abridge.A2a.{Message}
use a2abridge.Store.Entry.{written, empty_store}
use a2abridge.Executor.Defs.{
  Executor, Context, reply_pending, status, artifact, Consumer, resume, complete_task,
}
use a2abridge.Executor.Waiters.{
  Action, begins, resumes, completes, System, act_all, Follows, act_all-Follows,
}
use a2abridge.Executor.Replies.{complete-resume}
use a2abridge.Tests.Instances.{example_env, example_states}

abbrev greeting : Message
greeting = record { id = codes "m1"; parts = some (codes "hi") ∷ []; sender = some (codes "bob") }

abbrev context : Context
context = record {
  task_id = codes "t1";
  context_id = [];
  message = some greeting;
  has_task = false;
}

abbrev takes_all : Consumer
takes_all = record {
  takes_submitted = true;
  takes_rejected = true;
  takes_working = true;
  takes_artifact = true;
  takes_completed = true;
}

abbrev idle : Executor
idle = record { store = empty_store [] true; waiters = [] }

abbrev quiet : System
quiet = record { executor = idle; waiting = [] }

quiet-Follows : Follows quiet
unfolding lookup
quiet-Follows id = refl

abbrev exchange : List Action
exchange =
    begins written takes_all context
    ∷ completes written (codes "t1") (codes "yes")
    ∷ resumes takes_all false true (codes "t1")
    ∷ []

act_all-Follows_example : Follows (act_all example_env example_states exchange quiet)
act_all-Follows_example = act_all-Follows example_env example_states exchange quiet quiet-Follows

abbrev waits : Executor
waits = record { store = empty_store [] true; waiters = (codes "t1", none) ∷ [] }

complete-resume_example :
    let (x', e) =
      complete_task example_env example_states written (codes "t1") (codes "yes") waits in
    let (x'', e') = complete_task example_env example_states written (codes "t1") (codes "no") x' in
    let (z, events, ended) =
      resume example_env example_states takes_all true true (codes "t1") x'' in
    (e ≡ none)
    × (e' ≡ some reply_pending)
    × (events ≡ artifact (codes "yes") ∷ status example_states.completed (some (codes "yes")) ∷ [])
    × (ended ≡ true)
    × (lookup (codes "t1") z.waiters ≡ none)
unfolding lookup text_eq
complete-resume_example =
    complete-resume example_env example_states written written (codes "t1") (codes "yes")
      (codes "no") takes_all true waits refl refl
