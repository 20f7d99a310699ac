-- ===== src/Wake.antt =====
-- internal/agent/nudger.go and responder.go: what an incoming message sets off. Nudger and Responder
-- model, Escaping proves.
pub mod Nudger
pub mod Responder
pub mod Escaping
