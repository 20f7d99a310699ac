-- ===== src/Store/Entry.antt =====
-- internal/agent/store.go: the data of the store, and what it takes from its environment.
use a2abridge.Prelude.{
  Text, codes, text_eq, Map, ℕ, ◌-◌, ◌*◌, ◌%◌, ◌≡◌, ◌≢◌, Bool, ◌||◌, Option, none, some, List, [],
}
use a2abridge.Strings.{has_prefix}
use a2abridge.Metrics.{Metrics, zeros}

abbrev pub inbox_soft_cap : ℕ
inbox_soft_cap = 500

-- time.Second and time.Minute, in nanoseconds
abbrev pub second : ℕ
second = 1_000_000_000

abbrev pub reply_entry_ttl : ℕ
reply_entry_ttl = 2 * 60 * second

abbrev pub reply_message_id_prefix : Text
reply_message_id_prefix = codes "reply-"

abbrev pub kind_outgoing_reply : Text
kind_outgoing_reply = codes "outgoing-reply"

pub record InboxEntry : Type 0 where
  pub message_id : Text
  pub task_id : Text
  pub context_id : Text
  pub sender : Text  -- From
  pub text : Text
  pub kind : Text
  pub state : Text
  pub ts : Text

unfoldable pub has_reply_id : InboxEntry → Bool
has_reply_id e = has_prefix e.message_id reply_message_id_prefix

unfoldable pub is_synthetic_reply : InboxEntry → Bool
unfolding has_reply_id
is_synthetic_reply e = text_eq e.kind kind_outgoing_reply || has_reply_id e

pub record SnapshotEntry : Type 0 where
  pub message_id : Text
  pub task_id : Text
  pub context_id : Text
  pub sender : Text
  pub text : Text
  pub ts : Text

-- The projection that `persistInboxLocked` writes.
abbrev pub to_snapshot : InboxEntry → SnapshotEntry
to_snapshot e = record {
  message_id = e.message_id;
  task_id = e.task_id;
  context_id = e.context_id;
  sender = e.sender;
  text = e.text;
  ts = e.ts;
}

-- The entry that `LoadInbox` builds from a projection.
abbrev pub of_snapshot : SnapshotEntry → InboxEntry
of_snapshot e = record {
  message_id = e.message_id;
  task_id = e.task_id;
  context_id = e.context_id;
  sender = e.sender;
  text = e.text;
  kind = [];
  state = [];
  ts = e.ts;
}

pub record PendingOutgoingTask : Type 0 where
  pub task_id : Text
  pub peer_url : Text
  pub question : Text
  pub peer_name : Text
  pub sent_at : ℕ

-- The goroutines that the store starts, in order: the OnIncoming callback, and the user's hooks.
pub data Effect : Type 0 where
  on_incoming : InboxEntry → Effect
  hook_inbound : Text → Text → Text → Effect  -- task, sender, text
  hook_outgoing_reply : Text → Text → Text → Text → Effect  -- task, sender, text, state

pub record Store : Type 0 where
  pub inbox : List InboxEntry
  pub inbox_path : Text
  pub has_callback : Bool  -- OnIncoming != nil
  pub pending_outgoing : Map PendingOutgoingTask
  pub snapshot : Option Text  -- the content of the file at inbox_path
  pub metrics : Metrics
  pub fired : List Effect

-- time.Format and time.Parse at RFC 3339 (UTC, seconds), and the JSON codec of the snapshot.
pub record Env : Type 0 where
  pub format_time : ℕ → Text
  pub parse_time : Text → Option ℕ
  pub encode : List SnapshotEntry → Text
  pub decode : Text → Option (List SnapshotEntry)

-- What the standard library documents of them.
pub record EnvLaws (env : Env) : Type 0 where
  pub parse-format : (t : ℕ) → env.parse_time (env.format_time t) ≡ some (t - t % second)
  pub format-ne-nil : (t : ℕ) → env.format_time t ≢ []
  pub decode-encode : (l : List SnapshotEntry) → env.decode (env.encode l) ≡ some l
  pub encode-ne-nil : (l : List SnapshotEntry) → env.encode l ≢ []

-- What became of an atomic write: `os.WriteFile` failed, `os.Rename` failed, or neither.
pub data WriteResult : Type 0 where
  write_failed rename_failed written : WriteResult

abbrev pub empty_store : Text → Bool → Store
empty_store path callback = record {
  inbox = [];
  inbox_path = path;
  has_callback = callback;
  pending_outgoing = [];
  snapshot = none;
  metrics = zeros;
  fired = [];
}
