-- ===== src/Tests/Toolings.antt =====
-- The theorems on internal/agent/mcp.go on concrete peers.
use a2abridge.Prelude.{
  ◌==◌, if◌then◌else◌, Bool-cases, is_some, All, Text, codes, text_eq, lookup, ℕ, ◌≡◌, refl, ap,
  inl, inr, Bool, true, false, Option, none, some, List, [], ◌∷◌, map, append-nil, arith,
}
use a2abridge.A2a.{Status, Task}
use a2abridge.Strings.{is_space, trim_space}
use a2abridge.Tests.Instances.{example_env, completed, example_states}
use a2abridge.Security.Screen.{Piece, plain, hit, Pattern, IsPattern, screen}
use a2abridge.Security.Masking.{hidden}
use a2abridge.Store.Entry.{Store, written, empty_store}
use a2abridge.Store.Inbox.{append_inbox}
use a2abridge.Store.Outgoing.{extract_reply_text, synthetic_entry}
use a2abridge.Executor.Defs.{Executor}
use a2abridge.Registry.Defs.{
  empty_registry, Parser, valid_agent_url, unregisters, asks, ticks, happen_all,
}
use a2abridge.Registry.Invariant.{empty-IsSound}
use a2abridge.Registry.Listed.{cell}
use a2abridge.Tools.Data.{sent_task, stream_message, status_update, Client, Deps, SendArgs, sent}
use a2abridge.Tools.Defs.{
  outbound_message, send_message, send_streaming, complete_tool, subscribe_outgoing_reply,
}
use a2abridge.Tools.Directory.{
  Resolved, unresolved, resolved, peer_info, list_peers, tick, heartbeats,
}
use a2abridge.Tools.Secrecy.{tools-Masked, outbound_message_verbatim}
use a2abridge.Tools.Tracking.{asked, send_message-reply}
use a2abridge.Tools.Order.{list_peers_lem}
use a2abridge.Tools.Timeline.{Period, history}
use a2abridge.Tools.Presence.{heartbeats-listed}

-- A pattern that takes everything behind the first rune K for a secret.
abbrev cut_secret : Text → List Piece
cut_secret [] = []
cut_secret (c ∷ s) =
    let rest = cut_secret s in if c == b'K' then hit (c ∷ s) ∷ [] else plain (c ∷ []) ∷ rest

abbrev secret : Pattern
secret = record { name = codes "key"; pieces = cut_secret }

secret-IsPattern : IsPattern secret
secret-IsPattern [] = refl
secret-IsPattern (c ∷ s) = elim (Bool-cases (c == b'K')) [
  | inl e ↦ rw e (append-nil (c ∷ s))
  | inr e ↦ rw e (ap (λ t. c ∷ t) (secret-IsPattern s))
]

abbrev status_in : Text → Status
status_in state = record { state = state; message = none; timestamp = none }

abbrev working_task : Task
working_task = record {
  id = codes "7";
  context_id = [];
  status = status_in (codes "working");
  artifacts = [];
  history = [];
}

abbrev done_task : Task
done_task = record working_task {
  status = status_in completed;
  artifacts = some (some (codes "yes") ∷ []) ∷ [];
}

abbrev peer : Client
peer = record {
  name = codes "bob";
  send = λ m now. some (sent_task working_task);
  stream = λ m. some stream_message ∷ [];
  subscribe = λ id. some (status_update completed) ∷ [];
  get_task = λ id. some done_task;
  cancel = λ id. none;
}

abbrev deps : Deps
deps = record {
  patterns = secret ∷ [];
  own_name = codes "me";
  self_url = codes "http://me";
  client = λ url. some peer;
  states = example_states;
  env = example_env;
}

abbrev args : SendArgs
args = record {
  peer_url = some (codes "http://bob");
  text = some (codes "hi Kabcdef");
  blocking = false;
  context_id = [];
  task_id = [];
}

abbrev store : Store
store = empty_store [] false

abbrev idle : Executor
idle = record { store = store; waiters = [] }

tools-Masked_example :
    (send_message deps written 1 (record args { text = some (codes "hi Kabcdef") }) store
      ≡ send_message deps written 1 (record args { text = some (codes "hi Kxy") }) store)
    × (send_streaming deps false args.peer_url (some (codes "hi Kabcdef")) store
        ≡ send_streaming deps false args.peer_url (some (codes "hi Kxy")) store)
    × (complete_tool deps written (some []) (some (codes "hi Kabcdef")) idle
        ≡ complete_tool deps written (some []) (some (codes "hi Kxy")) idle)
tools-Masked_example =
    tools-Masked deps written 1 false args (codes "hi Kabcdef") (codes "hi Kxy") idle (λ e. cc)
      (λ e. cc) (hidden secret [] (codes "hi Kabcdef") (codes "hi Kxy") (refl, (refl, (refl, tt))))

outbound_message_verbatim_example :
    (outbound_message deps [] [] (screen (secret ∷ []) (codes "hi"))).text ≡ codes "hi"
outbound_message_verbatim_example =
    outbound_message_verbatim deps [] [] (codes "hi") (secret-IsPattern, tt)
      (unfold outbound_message screen in refl)

send_message-reply_example :
    let (s1, result, subscribed) = send_message deps written 1 args store in
    let s2 = (subscribe_outgoing_reply deps written 2 false (codes "7") (some peer) s1).0 in
    (result ≡ sent (sent_task working_task))
    × (subscribed ≡ some (codes "7"))
    × (s2.inbox
        ≡ (append_inbox
            (synthetic_entry example_env 2
              (asked deps args
                (codes "http://bob")
                (codes "hi Kabcdef")
                peer
                working_task
                done_task
                1)
              (extract_reply_text done_task)
              completed)
            []).0)
    × (lookup (codes "7") s2.pending_outgoing ≡ none)
unfolding text_eq trim_space
send_message-reply_example =
    send_message-reply deps args (codes "http://bob") (codes "hi Kabcdef") peer working_task
      done_task written written 1 2 store refl refl refl refl refl refl refl refl
      (unfold extract_reply_text is_space in refl)

abbrev resolve : Text → Resolved
resolve url = if text_eq url (codes "b") then unresolved (codes "down") else resolved url

abbrev directory : Text → Option (ℕ × Option (List Text))
directory url = some (200, some (codes "a" ∷ codes "me" ∷ codes "b" ∷ []))

list_peers_lem_example :
    (list_peers resolve (1 ∷ 0 ∷ []) directory (codes "d/") (codes "me")
      ≡ some (map (λ u. peer_info u (resolve u)) (codes "a" ∷ codes "b" ∷ [])))
    × All
        (λ p. text_eq p.url (codes "me") ≡ false)
        (map (λ u. peer_info u (resolve u)) (codes "a" ∷ codes "b" ∷ []))
unfolding text_eq
list_peers_lem_example =
    list_peers_lem resolve directory (codes "d/") (codes "me")
      (codes "a" ∷ codes "me" ∷ codes "b" ∷ []) (1 ∷ 0 ∷ []) refl refl (λ n h. ground (arith, h))

abbrev host_only : Parser
host_only raw = some (codes "http", raw)

abbrev round : Bool → Period
round delivered = record {
  delivered = delivered;
  delay = 5;
  before = ticks 3 ∷ asks 4 (unregisters (some (codes "bob"))) ∷ [];
  after = [];
}

heartbeats-listed_example :
    is_some (
      cell (codes "me") (
        happen_all host_only
          (history 1 2 []
            (heartbeats (codes "me") (tick ∷ tick ∷ tick ∷ []))
            (round false ∷ round true ∷ round false ∷ []))
          empty_registry))
    ≡ true
heartbeats-listed_example =
    heartbeats-listed host_only (codes "me") 1 2 [] (round false ∷ round true ∷ round false ∷ [])
      empty_registry (empty-IsSound host_only) (unfold valid_agent_url text_eq in refl)
      (omega arith) tt
      (unfold text_eq in
        (((refl, (refl, tt)), tt, ((refl, (refl, tt)), tt, ((refl, (refl, tt)), tt, tt)))))
      refl
