-- ===== src/Executor/Replies.antt =====
-- internal/agent/executor.go: from CompleteTask to the events of the waiting execution.
use a2abridge.Prelude.{
  if◌then◌else◌, Text, text_eq_refl, lookup, insert, delete, lookup-insert, lookup-delete, ◌≡◌, ap,
  ◌∙◌, Bool, true, none, some, [], ◌∷◌, arith,
}
use a2abridge.A2a.{States}
use a2abridge.Store.Entry.{Env, WriteResult}
use a2abridge.Executor.Defs.{
  Executor, reply_pending, status, artifact, Consumer, resume, complete_task,
}

module _ (env : Env) (states : States) where
  complete-empty :
      (w : WriteResult) (id text : Text) (x : Executor)
      → lookup id x.waiters ≡ some none
      → let (x', e) = complete_task env states w id text x in
        (e ≡ none) × (x'.waiters ≡ insert id (some text) x.waiters)
  unfolding complete_task
  complete-empty w id text x h = ground arith

  complete-full :
      (w : WriteResult) (id text first : Text) (x : Executor)
      → lookup id x.waiters ≡ some (some first)
      → let (x', e) = complete_task env states w id text x in
        (e ≡ some reply_pending) × (x'.waiters ≡ x.waiters)
  unfolding complete_task
  complete-full w id text first x h = ground arith

  resume-full :
      (c : Consumer) (canceled : Bool) (id reply : Text) (x : Executor)
      → lookup id x.waiters ≡ some (some reply)
      → c.takes_artifact ≡ true
      → let (z, events, ended) = resume env states c canceled true id x in
        (events ≡ artifact reply ∷ status states.completed (some reply) ∷ [])
        × (ended ≡ true)
        × (z.waiters ≡ delete id x.waiters)
  unfolding resume
  resume-full c canceled id reply x h t = ground arith

  -- A reply reaches the execution that waits for it. Where the task's channel is empty, the call
  -- succeeds; a second reply is refused as pending, and the first one stays; and the execution, when
  -- it resumes on the reply, yields exactly the artifact and the completion with the first text, and
  -- gives its waiter up. The consumer of the events is assumed to take the artifact.
  pub complete-resume :
      (w w' : WriteResult) (id text late : Text) (c : Consumer) (canceled : Bool) (x : Executor)
      → lookup id x.waiters ≡ some none
      → c.takes_artifact ≡ true
      → let (x', e) = complete_task env states w id text x in
        let (x'', e') = complete_task env states w' id late x' in
        let (z, events, ended) = resume env states c canceled true id x'' in
        (e ≡ none)
        × (e' ≡ some reply_pending)
        × (events ≡ artifact text ∷ status states.completed (some text) ∷ [])
        × (ended ≡ true)
        × (lookup id z.waiters ≡ none)
  complete-resume w w' id text late c canceled x h t =
      let (x', e) = complete_task env states w id text x in
      let (x'', e') = complete_task env states w' id late x' in
      let first = complete-empty w id text x h in
      let held : lookup id x'.waiters ≡ some (some text) =
        ground (arith, first, lookup-insert id id (some text) x.waiters, text_eq_refl id) in
      let second = complete-full w' id late text x' held in
      let third = resume-full c canceled id text x'' (ap (lookup id) second.1 ∙ held) t in
      (
        first.0,
        second.0,
        third.0,
        third.1,
        ap (lookup id) third.2
            ∙ (lookup-delete id id x''.waiters
                ∙ ap (λ b. if b then none else lookup id x''.waiters) (text_eq_refl id)),
      )
