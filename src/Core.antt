-- ===== src/Core.antt =====
-- The crate `ctxward-core` (crates/ctxward-core/src).
pub mod Types
pub mod Auth
pub mod Detect
pub mod Policy
pub mod Tokenize
pub mod Redact
pub mod RedactApi
pub mod Session
