-- ===== src/Executor.antt =====
-- internal/agent/executor.go: the executor of inbound tasks. The child Defs holds the model; the
-- others prove.
pub mod Defs
pub mod Utc
pub mod Waiters
pub mod Replies
