-- ===== src/Tools/Data.antt =====
-- internal/agent/mcp.go: what the tools exchange with the host and with peers. A peer's client is what
-- it answers.
use a2abridge.Prelude.{if◌then◌else◌, Text, Bool, true, false, Option, none, some, List, [], ◌∷◌}
use a2abridge.Metrics.{inc_messages_sent}
use a2abridge.A2a.{Task, States}
use a2abridge.Security.Screen.{Pattern}
use a2abridge.Store.Entry.{InboxEntry, Store, Env}

-- The message to a peer, with its metadata.
pub record Outbound : Type 0 where
  pub text : Text
  pub sender : Text
  pub sender_url : Text
  pub redactions : Option Text
  pub context_id : Text
  pub task_id : Text

-- What SendMessage returns, and a stream's events, as far as they are told apart.
pub data Sent : Type 0 where
  sent_message : Sent
  sent_task : Task → Sent

pub data StreamEvent : Type 0 where
  stream_message : StreamEvent
  stream_task : Task → StreamEvent
  status_update : Text → StreamEvent  -- the state
  artifact_update : StreamEvent

-- A connected client: the name on the peer's card, and its answers; none is an error. The flag of
-- `send` is ReturnImmediately.
pub record Client : Type 0 where
  pub name : Text
  pub send : Outbound → Bool → Option Sent
  pub stream : Outbound → List (Option StreamEvent)
  pub subscribe : Text → List (Option StreamEvent)
  pub get_task : Text → Option Task
  pub cancel : Text → Option Task

-- The agent's own side of `MCPDeps`, with the patterns of the screen and the peers by their url.
pub record Deps : Type 0 where
  pub patterns : List Pattern
  pub own_name : Text
  pub self_url : Text
  pub client : Text → Option Client
  pub states : States
  pub env : Env

-- `isTerminalEvent`
unfoldable pub is_terminal_event : States → StreamEvent → Bool
is_terminal_event st stream_message = true
is_terminal_event st (stream_task t) = st.terminal t.status.state
is_terminal_event st (status_update state) = st.terminal state
is_terminal_event st artifact_update = false

-- The loop over a stream: the events up to a terminal one, and whether an error ended it.
unfoldable pub collect_events : States → List (Option StreamEvent) → List StreamEvent × Bool
unfolding is_terminal_event
collect_events st [] = ([], false)
collect_events st (none ∷ l) = ([], true)
collect_events st (some e ∷ l) =
    let (rest, failed) = collect_events st l in
    if is_terminal_event st e then (e ∷ [], false) else (e ∷ rest, failed)

abbrev pub count_sent : Store → Store
count_sent s = record s { metrics = inc_messages_sent s.metrics }

-- The arguments of a2a_send_message; the required ones are none where they are missing.
pub record SendArgs : Type 0 where
  pub peer_url : Option Text
  pub text : Option Text
  pub blocking : Bool
  pub context_id : Text
  pub task_id : Text

-- What a tool returns: an error, or a result; and the task whose reply it subscribes to.
pub data Result : Type 0 where
  failed : Result
  sent : Sent → Result
  streamed : List StreamEvent → Result
  timed_out : List StreamEvent → Result
  entries : List InboxEntry → Result
  completed : Option Text → Result
  fetched : Task → Result
