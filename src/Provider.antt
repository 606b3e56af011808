-- ===== src/Provider.antt =====
-- internal/provider: capabilities and the errors of upstream calls.
pub mod Capability
pub mod Errors
