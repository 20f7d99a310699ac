-- ===== src/Store/Step.antt =====
-- internal/agent/store.go: one call of any of the store's operations.
use a2abridge.Prelude.{Text, ℕ, Bool, Option, List, [], ◌∷◌}
use a2abridge.A2a.{Task}
use a2abridge.Store.Entry.{InboxEntry, PendingOutgoingTask, Store, Env, WriteResult}
use a2abridge.Store.Inbox.{
  deliver_incoming, evict_expired_replies, drain_inbox, peek_inbox, drop_task_entries, load_inbox,
}
use a2abridge.Store.Outgoing.{Round, track_outgoing, ingest_outgoing_terminal, poll_outgoing}

pub data Op : Type 0 where
  deliver : WriteResult → InboxEntry → Op
  evict : WriteResult → ℕ → Op
  drain : WriteResult → Op
  peek : WriteResult → Op
  drop_task : WriteResult → Text → Op
  load : Bool → Op
  track : ℕ → Text → Text → Text → Text → Op
  ingest : WriteResult → ℕ → Option Task → Op
  poll : ℕ → (PendingOutgoingTask → Round) → Op

module _ (env : Env) (terminal : Text → Bool) where
  unfoldable pub step : Op → Store → Store
  step (deliver w e) s = (deliver_incoming env w e s).0
  step (evict w now) s = (evict_expired_replies env w now s).0
  step (drain w) s = (drain_inbox env w s).0
  step (peek w) s = (peek_inbox env w s).0
  step (drop_task w id) s = (drop_task_entries env w id s).0
  step (load readable) s = load_inbox env readable s
  step (track now id url name question) s = track_outgoing env now id url name question s
  step (ingest w now t) s = (ingest_outgoing_terminal env terminal w now t s).0
  step (poll max_age rounds) s = (poll_outgoing env terminal max_age rounds s).0

  unfoldable pub run : List Op → Store → Store
  run [] s = s
  run (op ∷ ops) s = run ops (step op s)
