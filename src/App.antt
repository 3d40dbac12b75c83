-- ===== src/App.antt =====
-- src/app.rs: the errors and the state of the gateway.
pub mod Errors
pub mod Engines
pub mod Reload
