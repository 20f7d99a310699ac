-- ===== src/Executor/Defs.antt =====
-- internal/agent/executor.go. An execution runs in two parts: up to the point where it waits for a
-- reply, and from there. `waiters` maps a task to its channel of capacity one: none is an empty
-- channel, otherwise the reply that it holds.
use a2abridge.Prelude.{
  if◌then◌else◌, Text, codes, Map, lookup, insert, delete, Bool, true, false, not, ◌&&◌, Option,
  none, some, List, [], ◌∷◌, ◌++◌,
}
use a2abridge.Metrics.{inc_task_completed, inc_task_failed}
use a2abridge.A2a.{Message, States}
use a2abridge.Store.Entry.{InboxEntry, Store, Env, WriteResult}
use a2abridge.Store.Inbox.{deliver_incoming, drop_task_entries}
use a2abridge.Store.Outgoing.{message_text}

pub record Executor : Type 0 where
  pub store : Store
  pub waiters : Map (Option Text)

-- a2asrv.ExecutorContext; `has_task` says that StoredTask is not nil.
pub record Context : Type 0 where
  pub task_id : Text
  pub context_id : Text
  pub message : Option Message
  pub has_task : Bool

pub data Error : Type 0 where
  invalid_params waiter_exists task_not_found reply_pending : Error

-- What an execution yields.
pub data Event : Type 0 where
  submitted_task : Event
  status : Text → Option Text → Event  -- the state, and the text of its message
  artifact : Text → Event
  failure : Error → Event

-- Whether the consumer of the events goes on after each of them: `yield` returned true.
pub record Consumer : Type 0 where
  pub takes_submitted : Bool
  pub takes_rejected : Bool
  pub takes_working : Bool
  pub takes_artifact : Bool
  pub takes_completed : Bool

unfoldable pub register_waiter : Text → Executor → Option Executor
register_waiter id x = elim (lookup id x.waiters) [
  | some _ ↦ none
  | none ↦ some (record x { waiters = insert id none x.waiters })
]

unfoldable pub unregister_waiter : Text → Executor → Executor
unregister_waiter id x = record x { waiters = delete id x.waiters }

-- `metadataString(meta, "from")`
abbrev pub sender_of : Option Text → Text
sender_of none = []
sender_of (some t) = t

unfoldable pub inbound_entry : Context → Message → InboxEntry
unfolding message_text
inbound_entry ec m = record {
  message_id = m.id;
  task_id = ec.task_id;
  context_id = ec.context_id;
  sender = sender_of m.sender;
  text = message_text m;
  kind = [];
  state = [];
  ts = [];
}

abbrev count_failed : Bool → Store → Store
count_failed b s = if b then record s { metrics = inc_task_failed s.metrics } else s

abbrev count_completed : Bool → Store → Store
count_completed b s = if b then record s { metrics = inc_task_completed s.metrics } else s

-- The part of the notice behind "message " and its id.
abbrev pub duplicate_notice : Text → Text
duplicate_notice id = codes "message " ++ (id ++ codes " is already queued for this agent")

module _ (env : Env) (states : States) where
  -- The part of `Execute` behind the registration; the flag says that the execution now waits.
  deliver_part :
      WriteResult → Consumer → Context → Message → Executor → Executor × List Event × Bool
  unfolding unregister_waiter inbound_entry deliver_incoming inc_task_failed
  deliver_part w c ec m x =
      let (s, is_new) = deliver_incoming env w (inbound_entry ec m) x.store in
      if is_new
      then (if c.takes_working
          then (record x { store = s }, status states.working none ∷ [], true)
          else (
            unregister_waiter ec.task_id (record x { store = s }),
            status states.working none ∷ [],
            false,
          ))
      else (
        unregister_waiter ec.task_id (record x { store = count_failed c.takes_rejected s }),
        status states.rejected (some (duplicate_notice m.id)) ∷ [],
        false,
      )

  register_part :
      WriteResult → Consumer → Context → Message → Executor → Executor × List Event × Bool
  unfolding register_waiter deliver_part
  register_part w c ec m x = elim (register_waiter ec.task_id x) [
    | none ↦ (x, failure waiter_exists ∷ [], false)
    | some x' ↦ deliver_part w c ec m x'
  ]

  submit_part : WriteResult → Consumer → Context → Message → Executor → Executor × List Event × Bool
  unfolding register_part
  submit_part w c ec m x =
      if ec.has_task
      then register_part w c ec m x
      else if c.takes_submitted
      then (let (x', events, waits) = register_part w c ec m x in
          (x', submitted_task ∷ events, waits))
      else (x, submitted_task ∷ [], false)

  unfoldable pub begin_execution :
      WriteResult → Consumer → Context → Executor → Executor × List Event × Bool
  unfolding submit_part
  begin_execution w c ec x = elim ec.message [
    | none ↦ (x, failure invalid_params ∷ [], false)
    | some m ↦ submit_part w c ec m x
  ]

  -- The reply branch of the select.
  unfoldable pub resume_reply : Consumer → Text → Text → Executor → Executor × List Event
  unfolding unregister_waiter inc_task_completed
  resume_reply c id reply x =
      if c.takes_artifact
      then (
        unregister_waiter id (record x { store = count_completed c.takes_completed x.store }),
        artifact reply ∷ status states.completed (some reply) ∷ [],
      )
      else (unregister_waiter id x, artifact reply ∷ [])

  -- The select: `canceled` says that the context is done. A channel that holds a reply and a done
  -- context are both ready, and `prefers_reply` is the runtime's choice. Where nothing is ready the
  -- execution goes on waiting; the flag says that it ended.
  unfoldable pub resume : Consumer → Bool → Bool → Text → Executor → Executor × List Event × Bool
  unfolding resume_reply
  resume c canceled prefers_reply id x =
      if canceled && not prefers_reply
      then (unregister_waiter id x, [], true)
      else elim (lookup id x.waiters) [
        | some (some reply) ↦ (let (x', events) = resume_reply c id reply x in (x', events, true))
        | some none ↦ if canceled then (unregister_waiter id x, [], true) else (x, [], false)
        | none ↦ if canceled then (unregister_waiter id x, [], true) else (x, [], false)
      ]

  -- `Cancel`: the event, and the counter when the consumer takes it.
  unfoldable pub cancel : Bool → Executor → Executor × List Event
  unfolding inc_task_failed
  cancel takes x =
      (record x { store = count_failed takes x.store }, status states.canceled none ∷ [])

  hand_over : Bool → Text → Text → Executor → Executor × Option Error
  hand_over dropped_reply id text x = elim (lookup id x.waiters) [
    | none ↦ (x, if dropped_reply then none else some task_not_found)
    | some none ↦ (record x { waiters = insert id (some text) x.waiters }, none)
    | some (some _) ↦ (x, some reply_pending)
  ]

  unfoldable pub complete_task : WriteResult → Text → Text → Executor → Executor × Option Error
  unfolding hand_over drop_task_entries
  complete_task w id text x =
      let (s, dropped_reply) = drop_task_entries env w id x.store in
      hand_over dropped_reply id text (record x { store = s })
