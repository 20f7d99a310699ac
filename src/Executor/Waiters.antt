-- ===== src/Executor/Waiters.antt =====
-- internal/agent/executor.go: the waiter map follows the executions that wait.
use a2abridge.Prelude.{
  if◌then◌else◌, is_some, filter, any, Text, text_eq, text_eq_iff, lookup, insert, lookup-insert,
  lookup-delete, ◌≡◌, Bool, not, ◌&&◌, none, some, List, [], ◌∷◌, arith,
}
use a2abridge.A2a.{States}
use a2abridge.Store.Entry.{Env, WriteResult}
use a2abridge.Executor.Defs.{
  Executor, Context, Consumer, begin_execution, resume, cancel, complete_task,
}

-- One part of an execution, or a call of the executor.
pub data Action : Type 0 where
  begins : WriteResult → Consumer → Context → Action
  resumes : Consumer → Bool → Bool → Text → Action
  cancels : Bool → Action
  completes : WriteResult → Text → Text → Action

-- The executor and the tasks whose executions wait, newest first.
pub record System : Type 0 where
  pub executor : Executor
  pub waiting : List Text

abbrev pub occurs : Text → List Text → Bool
occurs id l = any (λ x. text_eq x id) l

abbrev remove : Text → List Text → List Text
remove id l = filter (λ x. not (text_eq x id)) l

module _ (env : Env) (states : States) where
  -- Only an execution that waits can resume.
  pub act : Action → System → System
  act (begins w c ec) y =
      let (x, events, waits) = begin_execution env states w c ec y.executor in
      record { executor = x; waiting = if waits then ec.task_id ∷ y.waiting else y.waiting }
  act (resumes c canceled prefers id) y =
      if occurs id y.waiting
      then (let (x, events, ended) = resume env states c canceled prefers id y.executor in
          record { executor = x; waiting = if ended then remove id y.waiting else y.waiting })
      else y
  act (cancels takes) y = record y { executor = (cancel env states takes y.executor).0 }
  act (completes w id text) y = record y {
    executor = (complete_task env states w id text y.executor).0;
  }

  pub act_all : List Action → System → System
  act_all [] y = y
  act_all (a ∷ l) y = act_all l (act a y)

-- A task has a waiter exactly when an execution of it waits.
abbrev pub Follows : System → Type 0
Follows y = (id : Text) → is_some (lookup id y.executor.waiters) ≡ occurs id y.waiting

occurs-remove :
    (id j : Text) (l : List Text) → occurs j (remove id l) ≡ (not (text_eq id j) && occurs j l)
occurs-remove id j [] = ground arith
occurs-remove id j (x ∷ l) =
    ground (arith, text_eq_iff x id, text_eq_iff x j, text_eq_iff id j, occurs-remove id j l)

module _ (env : Env) (states : States) where
  begins-Follows :
      (w : WriteResult) (c : Consumer) (ec : Context) (y : System) (j : Text)
      → Follows y
      → is_some (lookup j (act env states (begins w c ec) y).executor.waiters)
        ≡ occurs j (act env states (begins w c ec) y).waiting
  unfolding act begin_execution
  begins-Follows w c ec y j h = ground (
    arith,
    h j,
    h ec.task_id,
    text_eq_iff ec.task_id j,
    lookup-insert ec.task_id j none y.executor.waiters,
    lookup-delete ec.task_id j (insert ec.task_id none y.executor.waiters),
  )

  resumes-Follows :
      (c : Consumer) (canceled prefers : Bool) (id : Text) (y : System) (j : Text)
      → Follows y
      → is_some (lookup j (act env states (resumes c canceled prefers id) y).executor.waiters)
        ≡ occurs j (act env states (resumes c canceled prefers id) y).waiting
  unfolding act resume
  resumes-Follows c canceled prefers id y j h = ground (
    arith,
    h j,
    occurs-remove id j y.waiting,
    text_eq_iff id j,
    lookup-delete id j y.executor.waiters,
  )

  completes-Follows :
      (w : WriteResult) (id text : Text) (y : System) (j : Text)
      → Follows y
      → is_some (lookup j (act env states (completes w id text) y).executor.waiters)
        ≡ occurs j (act env states (completes w id text) y).waiting
  unfolding act complete_task
  completes-Follows w id text y j h =
      ground (arith, h j, text_eq_iff id j, lookup-insert id j (some text) y.executor.waiters)

  act-Follows : (a : Action) (y : System) → Follows y → Follows (act env states a y)
  act-Follows (begins w c ec) y h j = begins-Follows w c ec y j h
  act-Follows (resumes c canceled prefers id) y h j = resumes-Follows c canceled prefers id y j h
  act-Follows (cancels takes) y h j = unfold act cancel in h j
  act-Follows (completes w id text) y h j = completes-Follows w id text y j h

  -- Waiters do not leak: in whatever order executions begin, resume and end, tasks are canceled and
  -- replies are handed over, from an executor without waiters a task has a waiter exactly when an
  -- execution of it waits; so when no execution waits there is no waiter left.
  pub act_all-Follows :
      (l : List Action) (y : System) → Follows y → Follows (act_all env states l y)
  unfolding act_all
  act_all-Follows [] y h = h
  act_all-Follows (a ∷ l) y h = act_all-Follows l (act env states a y) (act-Follows a y h)
