-- ===== src/Metrics.antt =====
-- internal/metrics/metrics.go: the process counters and gauges. Each is an atomic int64, kept here
-- as its bit pattern below 2^64. The text that `emit` prints is not modelled.
use a2abridge.Prelude.{ℕ, ◌+◌, ◌%◌, ◌^◌}

pub record Metrics : Type 0 where
  pub messages_sent : ℕ
  pub messages_received : ℕ
  pub tasks_completed : ℕ
  pub tasks_failed : ℕ
  pub push_delivered : ℕ
  pub push_failed : ℕ
  pub current_inbox_size : ℕ
  pub current_peers : ℕ

abbrev pub int64_mod : ℕ
int64_mod = 2 ^ 64

-- `Int64.Add(1)`
abbrev pub add_one64 : ℕ → ℕ
add_one64 n = (n + 1) % int64_mod

unfoldable pub inc_messages_sent : Metrics → Metrics
inc_messages_sent m = record m { messages_sent = add_one64 m.messages_sent }

unfoldable pub inc_messages_received : Metrics → Metrics
inc_messages_received m = record m { messages_received = add_one64 m.messages_received }

unfoldable pub inc_task_completed : Metrics → Metrics
inc_task_completed m = record m { tasks_completed = add_one64 m.tasks_completed }

unfoldable pub inc_task_failed : Metrics → Metrics
inc_task_failed m = record m { tasks_failed = add_one64 m.tasks_failed }

unfoldable pub inc_push_delivered : Metrics → Metrics
inc_push_delivered m = record m { push_delivered = add_one64 m.push_delivered }

unfoldable pub inc_push_failed : Metrics → Metrics
inc_push_failed m = record m { push_failed = add_one64 m.push_failed }

unfoldable pub set_inbox_size : ℕ → Metrics → Metrics
set_inbox_size n m = record m { current_inbox_size = n % int64_mod }

unfoldable pub set_peers : ℕ → Metrics → Metrics
set_peers n m = record m { current_peers = n % int64_mod }

abbrev pub zeros : Metrics
zeros = record {
  messages_sent = 0;
  messages_received = 0;
  tasks_completed = 0;
  tasks_failed = 0;
  push_delivered = 0;
  push_failed = 0;
  current_inbox_size = 0;
  current_peers = 0;
}
