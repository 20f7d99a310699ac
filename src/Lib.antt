-- ===== src/Lib.antt =====
-- A verification library for a2abridge, the bridge that gives an IDE agent an A2A inbox.
--
-- The bridge serves the A2A protocol through the a2a-go SDK. A peer's request passes the protocol
-- guard, reaches the SDK, and starts an execution, which puts the message into the store's inbox
-- and waits. The host reads the inbox, and its answer goes through CompleteTask to the waiting
-- execution, which yields the reply. Text that the host sends passes a screen for secrets. Replies
-- to the agent's own outgoing tasks are polled or streamed from the peers and join the inbox as
-- synthetic entries. Tasks live in a task store with optimistic concurrency, paging and eviction;
-- webhooks get a task's events from the push sender; the directory lists the agents of a machine,
-- which each agent's heartbeat keeps it on; the installer rewrites the configurations of IDEs, the
-- uninstaller undoes that, and the updater replaces the binary.
--
-- Which file models which part (paths from the repository's root):
--   Store: internal/agent/store.go. Entry has the data, Inbox and Outgoing the methods of Store, each
--     critical section whole: deliver_incoming is deliverIncoming, poll_outgoing is PollOutgoing, and
--     so on. Step lists the calls; Invariant, Delivery, Selection, Synced, Durability, Concurrent and
--     ReplyText prove. The snapshot file is the optional text `snapshot`, a write that fails is the
--     argument WriteResult, and the goroutines that the store starts are listed in `fired`.
--   TaskStore: internal/agent/taskstore.go. Data, Versioned (Create, Update, Get, EvictTerminal) and
--     Listing (List and the page tokens) model; the others prove.
--   Executor: internal/agent/executor.go. An execution is begin_execution (up to the select) and
--     resume (from the select on); the consumer's answers to yield are the argument Consumer.
--   Push: internal/agent/push.go. Defs has the sender and its workers by their program points,
--     Delivery the retry loop, on rounds of fuel: as many rounds as attempts are enough, and Dial the
--     guard of the dialer.
--   Guard: internal/agent/guard.go. Version and Defs model both bindings; Numbers has strconv's Atoi
--     and Itoa, whose fuel, the number and one, is enough for its digits.
--   Registry: internal/directory/registry.go, with the handlers of Routes.
--   Config: internal/ideconfig, less the IDEs' paths. Jsonc is on bytes; Write has a flag for each
--     system call that can fail; Values has the JSON values, Entry the server's entry, Hooks the prompt
--     hook and Claude Code's writer, Remove the removal of both, and Plain the writers of Codex and
--     Continue; the others prove.
--   Security: internal/security/pii.go. A pattern is a function that cuts a text into pieces.
--   Tools: internal/agent/mcp.go. Data and Defs have the tools, with the peers' answers as
--     parameters, and subscribeOutgoingReply; Directory has listPeers, by the order in which its
--     goroutines write, and Heartbeat, by the requests that it sends; Timeline sets them beside the
--     registry's events.
--   Update: internal/cli/update.go and internal/buildinfo/version.go. Verify downloads and checks,
--     Install swaps the binary with a flag for each call that can fail, Run is the command.
--   Cli: internal/cli. Extras has the copies of the skill and the hook, Install and Uninstall are on
--     the IDEs of a machine with their files, Doctor has the statuses of doctor.go, and Names what
--     bridge.go makes of its surroundings.
--   Wake: internal/agent/nudger.go and responder.go. Card: internal/agent/cardcache.go. Executor/Utc:
--     internal/agent/utc.go.
--   Metrics: internal/metrics/metrics.go. A2a: the SDK's data as far as the program reads it.
--   Strings and Prelude: Go's strings and maps, lists and tests. Tests: concrete runs.
--
-- Numbers are natural numbers; an int64 is kept below 2^64 as its bit pattern; times are
-- nanoseconds (milliseconds in the retry policy); a text is the list of its runes, or of its bytes
-- where a file says so. A critical section of a mutex is one function on the state, and concurrency
-- is the order of such sections.
--
-- Parameters stand for code that is not under the repository: time.Format and time.Parse, the JSON
-- and base64 codecs, url.Parse, net.SplitHostPort and net.ParseIP, regular expressions, TOML, HTTP,
-- SHA-256 and archives, and of the SDK its task states, its version, its client and the clone of a
-- task, and the supervisor's library. What is relied on of them is in the records named Laws, in
-- IsVersion, IsPattern and ReadsAlike, and the files of Tests have functions that satisfy them.
--
-- Not modelled: logging, tickers and process management; the HTTP client of internal/agent/push.go,
-- and server.go and userhooks.go beside it; the commands that the nudger and the responder spawn;
-- the rest of internal/cli, internal/mdns and internal/security/tls.go, which is I/O and calls of
-- libraries; and the paths of single IDEs.
mod Prelude
mod Tests
pub mod Strings
pub mod Metrics
pub mod A2a
pub mod Store
pub mod TaskStore
pub mod Executor
pub mod Push
pub mod Registry
pub mod Config
pub mod Numbers
pub mod Guard
pub mod Update
pub mod Security
pub mod Tools
pub mod Wake
pub mod Card
pub mod Cli
