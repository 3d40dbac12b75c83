-- ===== src/Proxy.antt =====
-- src/proxy.rs and src/opa.rs: the decisions of the reverse proxy.
pub mod Outcome
pub mod Response
pub mod Payload
pub mod Decide
pub mod Request
pub mod Handler
pub mod Admin
pub mod Sse
pub mod Headers
