-- ===== src/Store.antt =====
-- internal/agent/store.go: the durable inbox and the outgoing tasks. The children Entry, Inbox and
-- Outgoing hold the model; the others prove.
pub mod Entry
pub mod Inbox
pub mod Outgoing
pub mod Unique
pub mod Step
pub mod Invariant
pub mod Delivery
pub mod Selection
pub mod Synced
pub mod Durability
pub mod Concurrent
pub mod ReplyText
