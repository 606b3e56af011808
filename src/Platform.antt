-- ===== src/Platform.antt =====
-- internal/platform: the errors that every part of the server returns (errors.go).
pub mod Errors
pub mod Float
pub mod Sample
