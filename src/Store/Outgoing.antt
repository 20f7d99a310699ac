-- ===== src/Store/Outgoing.antt =====
-- internal/agent/store.go: the tasks that this agent sent to peers, and the synthetic replies that
-- their ends put into the inbox.
use a2abridge.Prelude.{
  ltb, leb, ◌==◌, if◌then◌else◌, length, take, Text, codes, text_eq, lookup, insert, delete, ℕ, ◌+◌,
  Bool, true, false, Option, none, some, List, [], ◌∷◌, ◌++◌, map,
}
use a2abridge.Strings.{trim_space}
use a2abridge.A2a.{Part, Artifact, Message, Task}
use a2abridge.Store.Entry.{
  reply_message_id_prefix, kind_outgoing_reply, InboxEntry, PendingOutgoingTask,
  hook_outgoing_reply, Store, Env, WriteResult,
}
use a2abridge.Store.Inbox.{append_inbox, replace_inbox, callback}

unfoldable pub part_text : Part → Text
part_text none = []
part_text (some t) = t

abbrev pub newline : ℕ
newline = 10

-- The loop of `messageText` and of `extractReplyText` over one list of parts; `b` is the builder.
unfoldable pub join_parts : Text → List Part → Text
unfolding part_text
join_parts b [] = b
join_parts b (pt ∷ pts) =
    join_parts
      (elim (part_text pt) [
        | [] ↦ b
        | c ∷ t ↦ if ltb 0 (length b) then b ++ newline ∷ c ∷ t else b ++ c ∷ t
      ])
      pts

unfoldable pub message_text : Message → Text
unfolding join_parts
message_text m = join_parts [] m.parts

unfoldable pub join_artifacts : Text → List Artifact → Text
unfolding join_parts
join_artifacts b [] = b
join_artifacts b (none ∷ l) = join_artifacts b l
join_artifacts b (some parts ∷ l) = join_artifacts (join_parts b parts) l

-- The first part with a text.
unfoldable pub first_text : List Part → Text
unfolding part_text
first_text [] = []
first_text (pt ∷ pts) = elim (part_text pt) [ [] ↦ first_text pts | c ∷ t ↦ c ∷ t ]

unfoldable pub extract_reply_text : Task → Text
unfolding join_artifacts first_text
extract_reply_text t = elim (join_artifacts [] t.artifacts) [
  | [] ↦ elim t.status.message [ none ↦ [] | some m ↦ first_text m.parts ]
  | c ∷ b ↦ c ∷ b
]

-- strings.ReplaceAll(s, "\n", " ")
abbrev pub flatten_newlines : Text → Text
flatten_newlines = map (λ c. if c == newline then 32 else c)

unfoldable pub trim_to : Text → ℕ → Text
trim_to s n = let r = flatten_newlines s in if leb (length r) n then r else take n r ++ codes "..."

-- The fmt.Sprintf of `appendSyntheticReply`.
unfoldable pub reply_body : PendingOutgoingTask → Text → Text
unfolding trim_to
reply_body p reply =
    codes "[ОТВЕТ от "
    ++ (p.peer_name
        ++ (codes " на твой вопрос «"
            ++ (trim_to p.question 80 ++ (codes "»]" ++ newline ∷ reply))))

abbrev pub new_pending : ℕ → Text → Text → Text → Text → PendingOutgoingTask
new_pending now task_id peer_url peer_name question = record {
  task_id = task_id;
  peer_url = peer_url;
  question = question;
  peer_name = peer_name;
  sent_at = now;
}

-- What the environment does in one round of the poll: the clock at the age test, what the
-- fetcher returned (none is an error, some none a nil task), the clock of the reply's entry, and
-- the write.
pub record Round : Type 0 where
  pub at : ℕ
  pub fetched : Option (Option Task)
  pub replied_at : ℕ
  pub write : WriteResult

module _ (env : Env) where
  unfoldable pub synthetic_entry : ℕ → PendingOutgoingTask → Text → Text → InboxEntry
  unfolding reply_body
  synthetic_entry now p reply state = record {
    message_id = reply_message_id_prefix ++ p.task_id;
    task_id = p.task_id;
    context_id = [];
    sender = p.peer_name;
    text = reply_body p reply;
    kind = kind_outgoing_reply;
    state = state;
    ts = env.format_time now;
  }

  unfoldable pub append_synthetic_reply :
      WriteResult → ℕ → PendingOutgoingTask → Text → Text → Store → Store
  unfolding synthetic_entry append_inbox replace_inbox trim_space
  append_synthetic_reply w now p reply state s =
      let entry = synthetic_entry now p reply state in
      let (l, is_new) = append_inbox entry s.inbox in
      if text_eq (trim_space reply) []
      then s
      else if is_new
      then (let s' = replace_inbox env w l s in
          record s' {
            fired =
                s.fired
                ++ (callback env s entry
                    ++ hook_outgoing_reply p.task_id p.peer_name reply state ∷ []);
          })
      else s

  unfoldable pub track_outgoing : ℕ → Text → Text → Text → Text → Store → Store
  track_outgoing now task_id peer_url peer_name question s = record s {
    pending_outgoing =
        insert task_id (new_pending now task_id peer_url peer_name question) s.pending_outgoing;
  }

  -- The critical section that takes a task out of the map; `none` when it is not there.
  unfoldable pub claim : Text → Store → Option (PendingOutgoingTask × Store)
  claim id s = elim (lookup id s.pending_outgoing) [
    | none ↦ none
    | some p ↦ some (p, record s { pending_outgoing = delete id s.pending_outgoing })
  ]

  -- An unreachable peer, or the task that it returned; none is a nil task.
  unfoldable pub ingest_outgoing_terminal :
      (Text → Bool) → WriteResult → ℕ → Option Task → Store → Store × Bool
  unfolding claim append_synthetic_reply extract_reply_text
  ingest_outgoing_terminal terminal w now none s = (s, false)
  ingest_outgoing_terminal terminal w now (some t) s =
      if terminal t.status.state
      then elim (claim t.id s) [
        | none ↦ (s, false)
        | some (p, s') ↦
            (append_synthetic_reply w now p (extract_reply_text t) t.status.state s', true)
      ]
      else (s, false)

  unfoldable pub poll_fetched :
      (Text → Bool) → Round → PendingOutgoingTask → Option (Option Task) → Store → Store × ℕ
  unfolding claim append_synthetic_reply extract_reply_text
  poll_fetched terminal r p none s = (s, 0)
  poll_fetched terminal r p (some none) s = (s, 0)
  poll_fetched terminal r p (some (some t)) s =
      if terminal t.status.state
      then elim (claim p.task_id s) [
        | none ↦ (s, 0)
        | some (_, s') ↦ (
          append_synthetic_reply r.write r.replied_at p (extract_reply_text t) t.status.state s',
          1,
        )
      ]
      else (s, 0)

  unfoldable pub poll_one : (Text → Bool) → ℕ → Round → PendingOutgoingTask → Store → Store × ℕ
  unfolding poll_fetched
  poll_one terminal max_age r p s =
      if ltb (p.sent_at + max_age) r.at
      then (record s { pending_outgoing = delete p.task_id s.pending_outgoing }, 0)
      else poll_fetched terminal r p r.fetched s

  unfoldable pub poll_all :
      (Text → Bool)
      → ℕ
      → (PendingOutgoingTask → Round)
      → List PendingOutgoingTask
      → Store
      → Store × ℕ
  unfolding poll_one
  poll_all terminal max_age rounds [] s = (s, 0)
  poll_all terminal max_age rounds (p ∷ ps) s =
      let (s', n) = poll_one terminal max_age (rounds p) p s in
      let (s'', m) = poll_all terminal max_age rounds ps s' in (s'', n + m)

  unfoldable pub poll_outgoing :
      (Text → Bool) → ℕ → (PendingOutgoingTask → Round) → Store → Store × ℕ
  unfolding poll_all
  poll_outgoing terminal max_age rounds s =
      poll_all terminal max_age rounds (map (λ kv. kv.1) s.pending_outgoing) s
