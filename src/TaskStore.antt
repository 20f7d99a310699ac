-- ===== src/TaskStore.antt =====
-- internal/agent/taskstore.go: the in-memory task store. The children Data, Versioned and Listing
-- hold the model; the others prove.
pub mod Data
pub mod Versioned
pub mod Listing
pub mod Conflicts
pub mod Eviction
pub mod Order
pub mod Indexed
pub mod Token
pub mod Paging
