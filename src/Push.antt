-- ===== src/Push.antt =====
-- internal/agent/push.go: webhook deliveries. Defs models the sender and its workers, Delivery the
-- retry loop and Dial the guard of the dialer; the others prove.
pub mod Defs
pub mod Steps
pub mod Fifo
pub mod Delivery
pub mod Retry
pub mod Dial
