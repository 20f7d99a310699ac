-- ===== src/Security.antt =====
-- internal/security/pii.go: the screen for secrets. Screen models it and Masking proves.
pub mod Screen
pub mod Masking
