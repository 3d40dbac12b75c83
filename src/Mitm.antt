-- ===== src/Mitm.antt =====
-- The parts of src/mitm and src/proxy_mode.rs that decide which hosts are intercepted.
pub mod Hosts
pub mod Classify
pub mod Ruleset
pub mod Usage
pub mod Stream
pub mod Handler
pub mod Updater
