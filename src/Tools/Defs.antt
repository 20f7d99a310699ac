-- ===== src/Tools/Defs.antt =====
-- internal/agent/mcp.go: the tools that send, wait and answer. Which error a tool reports is left
-- out, and so is the encoding of its result.
use a2abridge.Prelude.{
  if◌then◌else◌, Text, ℕ, Bool, true, false, not, Option, none, some, List, [], ◌∷◌,
}
use a2abridge.Metrics.{inc_messages_sent}
use a2abridge.A2a.{Task}
use a2abridge.Security.Screen.{Match, screen, format_matches}
use a2abridge.Store.Entry.{Store, WriteResult}
use a2abridge.Store.Inbox.{drain_inbox, peek_inbox}
use a2abridge.Store.Outgoing.{track_outgoing, ingest_outgoing_terminal}
use a2abridge.Executor.Defs.{Executor, Error, complete_task}
use a2abridge.Tools.Data.{
  Outbound, Sent, sent_message, sent_task, StreamEvent, Client, Deps, collect_events, count_sent,
  SendArgs, Result, failed, sent, streamed, timed_out, entries, completed, fetched,
}

module _ (d : Deps) where
  -- `outboundMessage`, with the ids that a2a_send_message sets on it.
  unfoldable pub outbound_message : Text → Text → Text × List Match → Outbound
  unfolding format_matches
  outbound_message context tid (text, hits) = record {
    text = text;
    sender = d.own_name;
    sender_url = d.self_url;
    redactions = elim hits [ [] ↦ none | m ∷ ms ↦ some (format_matches (m ∷ ms)) ];
    context_id = context;
    task_id = tid;
  }

  -- The registration of a task that was sent, and whether its reply is subscribed to.
  unfoldable pub track_sent :
      WriteResult → ℕ → Text → Text → Text → Sent → Store → Store × Option Text
  unfolding track_outgoing ingest_outgoing_terminal
  track_sent w now peer_url name redacted sent_message s = (s, none)
  track_sent w now peer_url name redacted (sent_task t) s =
      let s' = track_outgoing d.env now t.id peer_url name redacted s in
      if d.states.terminal t.status.state
      then ((ingest_outgoing_terminal d.env d.states.terminal w now (some t) s').0, none)
      else (s', some t.id)

  -- From the answer of the peer on.
  unfoldable pub after_send :
      WriteResult → ℕ → Text → Text → Text → Option Sent → Store → Store × Result × Option Text
  unfolding track_sent inc_messages_sent
  after_send w now peer_url name redacted none s = (s, failed, none)
  after_send w now peer_url name redacted (some x) s =
      let (s', subscribed) = track_sent w now peer_url name redacted x (count_sent s) in
      (s', sent x, subscribed)

  -- From the client on, with the screened text.
  unfoldable pub send_to :
      WriteResult
      → ℕ
      → SendArgs
      → Text
      → Text × List Match
      → Option Client
      → Store
      → Store × Result × Option Text
  unfolding after_send outbound_message
  send_to w now args peer_url screened none s = (s, failed, none)
  send_to w now args peer_url screened (some c) s =
      after_send w now peer_url c.name screened.0
        (c.send (outbound_message args.context_id args.task_id screened) (not args.blocking)) s

  -- By the required arguments.
  unfoldable pub send_from :
      WriteResult → ℕ → SendArgs → Option Text → Option Text → Store → Store × Result × Option Text
  unfolding send_to screen
  send_from w now args none text s = (s, failed, none)
  send_from w now args (some url) none s = (s, failed, none)
  send_from w now args (some url) (some text) s =
      send_to w now args url (screen d.patterns text) (d.client url) s

  -- a2a_send_message
  unfoldable pub send_message : WriteResult → ℕ → SendArgs → Store → Store × Result × Option Text
  unfolding send_from
  send_message w now args s = send_from w now args args.peer_url args.text s

  -- The end of a2a_send_streaming: `deadline` says that only the tool's own time limit had passed.
  unfoldable pub after_stream : Bool → List StreamEvent × Bool → Store → Store × Result
  unfolding inc_messages_sent
  after_stream deadline (events, false) s = (count_sent s, streamed events)
  after_stream deadline (events, true) s =
      if deadline then (count_sent s, timed_out events) else (s, failed)

  unfoldable pub stream_to : Bool → Text × List Match → Option Client → Store → Store × Result
  unfolding after_stream collect_events outbound_message
  stream_to deadline screened none s = (s, failed)
  stream_to deadline screened (some c) s =
      after_stream deadline (collect_events d.states (c.stream (outbound_message [] [] screened))) s

  -- a2a_send_streaming
  unfoldable pub send_streaming : Bool → Option Text → Option Text → Store → Store × Result
  unfolding stream_to screen
  send_streaming deadline none text s = (s, failed)
  send_streaming deadline (some url) none s = (s, failed)
  send_streaming deadline (some url) (some text) s =
      stream_to deadline (screen d.patterns text) (d.client url) s

  abbrev pub fetched_or_failed : Option Task → Result
  fetched_or_failed none = failed
  fetched_or_failed (some t) = fetched t

  -- `GetTask` of Peers.
  unfoldable pub peer_task : Text → Option Client → Option Task
  peer_task id none = none
  peer_task id (some c) = c.get_task id

  -- a2a_get_task
  unfoldable pub get_task_tool : Option Text → Option Text → Result
  unfolding peer_task
  get_task_tool none id = failed
  get_task_tool (some url) none = failed
  get_task_tool (some url) (some id) = fetched_or_failed (peer_task id (d.client url))

  unfoldable pub cancel_at : Text → Option Client → Result
  cancel_at id none = failed
  cancel_at id (some c) = fetched_or_failed (c.cancel id)

  -- a2a_cancel_task
  unfoldable pub cancel_task_tool : Option Text → Option Text → Result
  unfolding cancel_at
  cancel_task_tool none id = failed
  cancel_task_tool (some url) none = failed
  cancel_task_tool (some url) (some id) = cancel_at id (d.client url)

  -- a2a_inbox
  unfoldable pub inbox_tool : WriteResult → Bool → Store → Store × Result
  unfolding peek_inbox drain_inbox
  inbox_tool w peek s =
      if peek
      then (let (s', l) = peek_inbox d.env w s in (s', entries l))
      else (let (s', l) = drain_inbox d.env w s in (s', entries l))

  abbrev pub notice : List Match → Option Text
  notice [] = none
  notice (m ∷ ms) = some (format_matches (m ∷ ms))

  -- The end of a2a_complete_task.
  unfoldable pub after_complete : List Match → Executor × Option Error → Executor × Result
  unfolding inc_messages_sent format_matches
  after_complete hits (x, some e) = (x, failed)
  after_complete hits (x, none) = (record x { store = count_sent x.store }, completed (notice hits))

  unfoldable pub complete_screened :
      WriteResult → Text → Text × List Match → Executor → Executor × Result
  unfolding after_complete complete_task
  complete_screened w id (text, hits) x =
      after_complete hits (complete_task d.env d.states w id text x)

  -- a2a_complete_task
  unfoldable pub complete_tool :
      WriteResult → Option Text → Option Text → Executor → Executor × Result
  unfolding complete_screened screen
  complete_tool w none text x = (x, failed)
  complete_tool w (some id) none x = (x, failed)
  complete_tool w (some id) (some text) x = complete_screened w id (screen d.patterns text) x

  -- `subscribeOutgoingReply` behind its stream: `stopped` says that the bridge is shutting down.
  unfoldable pub resolve_reply : WriteResult → ℕ → Bool → Option Task → Store → Store
  unfolding ingest_outgoing_terminal
  resolve_reply w now stopped none s = s
  resolve_reply w now stopped (some t) s =
      if stopped then s else (ingest_outgoing_terminal d.env d.states.terminal w now (some t) s).0

  -- `subscribeOutgoingReply`, with the events that it read.
  unfoldable pub subscribe_outgoing_reply :
      WriteResult → ℕ → Bool → Text → Option Client → Store → Store × List StreamEvent
  unfolding resolve_reply collect_events
  subscribe_outgoing_reply w now stopped id none s = (s, [])
  subscribe_outgoing_reply w now stopped id (some c) s =
      (resolve_reply w now stopped (c.get_task id) s, (collect_events d.states (c.subscribe id)).0)
