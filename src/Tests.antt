-- ===== src/Tests.antt =====
-- Runs at concrete inputs, for each part of the gateway.
pub mod Identity
pub mod Detection
pub mod Policies
pub mod Tokens
pub mod Redaction
pub mod Sessions
pub mod Reviews
pub mod Gateway
pub mod Payloads
pub mod Attachments
pub mod Interception
pub mod Admin
pub mod Reloads
pub mod Hosts
