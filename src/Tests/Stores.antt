-- ===== src/Tests/Stores.antt =====
-- The theorems on internal/agent/store.go on concrete stores.
use a2abridge.Prelude.{
  ◌==◌, delete, insert, length, filter, any, Text, codes, text_eq, lookup, ◌+◌, ◌≤◌, String, ◌≡◌,
  ◌⊎◌, ◌<◌, ◌++◌, take, refl, Bool, true, false, not, none, some, List, [], ◌∷◌, map, arith,
}
use a2abridge.A2a.{Task}
use a2abridge.Store.Entry.{
  PendingOutgoingTask, InboxEntry, has_reply_id, Store, rename_failed, written, empty_store,
}
use a2abridge.Store.Inbox.{deliver_incoming, peek_inbox, load_inbox}
use a2abridge.Store.Outgoing.{
  claim, new_pending, newline, extract_reply_text, trim_to, track_outgoing,
}
use a2abridge.Store.Step.{Op, deliver, peek, drop_task, track, ingest, run}
use a2abridge.Store.Invariant.{IsWellFormed, run-IsWellFormed}
use a2abridge.Store.Delivery.{deliver_twice}
use a2abridge.Store.Selection.{peek_twice}
use a2abridge.Store.Durability.{strip, restart, restart_restores}
use a2abridge.Store.Concurrent.{System, tracks, claims, Reach, here, next, at_most_once}
use a2abridge.Store.ReplyText.{
  texts, artifact_parts, head_or, status_parts, lines_or, extract_reply_text_lem, InOneLine,
  trim_to_bounds,
}
use a2abridge.Tests.Instances.{example_env, example_env_laws, completed, example_states}

abbrev entry : String → String → InboxEntry
entry id task = record {
  message_id = codes id;
  task_id = codes task;
  context_id = [];
  sender = codes "alice";
  text = codes "hello";
  kind = [];
  state = [];
  ts = [];
}

abbrev ends : Text → Bool
ends = example_states.terminal

abbrev path : Text
path = codes "inbox.json"

abbrev start : Store
start = empty_store path false

abbrev answer : Task
answer = record {
  id = codes "t1";
  context_id = [];
  status = record { state = completed; message = none; timestamp = none };
  artifacts = some (some (codes "yes") ∷ none ∷ []) ∷ [];
  history = [];
}

abbrev calls : List Op
calls =
    deliver written (entry "m1" "t1")
    ∷ deliver written (entry "m2" "t2")
    ∷ track 0 (codes "t1") [] (codes "peer") (codes "really?")
    ∷ ingest written 5 (some answer)
    ∷ drop_task written (codes "t2")
    ∷ peek written
    ∷ []

abbrev tracked_store : Store
tracked_store = track_outgoing example_env 0 (codes "t1") [] (codes "peer") (codes "q") start

abbrev pending : PendingOutgoingTask
pending = new_pending 0 (codes "t1") [] (codes "peer") (codes "q")

abbrev first : System
first = record { store = start; flights = []; tracked = []; replied = [] }

abbrev tracked_system : System
tracked_system = record {
  store = tracked_store;
  flights = [];
  tracked = codes "t1" ∷ [];
  replied = [];
}

abbrev claimed_system : System
claimed_system = record tracked_system {
  store = record tracked_store { pending_outgoing = [] };
  flights = record { pending = pending; reply = codes "yes"; state = completed } ∷ [];
}

tracked_claimed : Reach example_env ends first claimed_system
unfolding claim lookup delete insert text_eq track_outgoing
tracked_claimed = next (next here (tracks first 0 (codes "t1") [] (codes "peer") (codes "q"))) (
    claims tracked_system pending pending (record tracked_store { pending_outgoing = [] })
      (codes "yes") completed refl refl)

at_most_once_example : 0 + 1 + 0 ≤ 1
unfolding text_eq lookup
at_most_once_example =
    at_most_once example_env ends start claimed_system (codes "t1") refl tracked_claimed

run-IsWellFormed_example : IsWellFormed (run example_env ends calls start)
run-IsWellFormed_example = run-IsWellFormed example_env ends calls start (omega arith)

restart_restores_example :
    (load_inbox example_env true (restart true (run example_env ends calls start))).inbox
    ≡ map strip (run example_env ends calls start).inbox
restart_restores_example =
    restart_restores example_env ends example_env_laws path false true calls (λ e. cc)
      (refl, (refl, (tt, (refl, (refl, (refl, tt))))))

deliver_twice_example :
    let s' = (deliver_incoming example_env written (entry "m1" "t1") start).0 in
    deliver_incoming example_env rename_failed (entry "m1" "t9") s' ≡ (s', false)
deliver_twice_example =
    deliver_twice example_env written rename_failed (entry "m1" "t1") (entry "m1" "t9") start
      (λ e. cc) refl

abbrev replied : Store
replied = run example_env ends calls start

peek_twice_example :
    let (s', shown) = peek_inbox example_env written replied in
    (shown ≡ replied.inbox)
    × (peek_inbox example_env written s' ≡ (s', filter (λ e. not (has_reply_id e)) shown))
peek_twice_example = peek_twice example_env written written replied

extract_reply_text_lem_example :
    extract_reply_text answer
    ≡ lines_or
        (head_or [] (texts (status_parts answer.status.message)))
        (texts (artifact_parts answer.artifacts))
extract_reply_text_lem_example = extract_reply_text_lem answer

trim_to_bounds_example :
    (length (trim_to (codes "a long text") 4) ≤ 7)
    × (any (λ c. c == newline) (trim_to (codes "a long text") 4) ≡ false)
    × (((length (codes "a long text") ≤ 4)
          × InOneLine (codes "a long text") (trim_to (codes "a long text") 4))
        ⊎ ((4 < length (codes "a long text"))
            × ((t : Text) × (InOneLine (codes "a long text") t
                  × (trim_to (codes "a long text") 4 ≡ take 4 t ++ codes "...")))))
trim_to_bounds_example = trim_to_bounds (codes "a long text") 4
