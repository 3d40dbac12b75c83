-- ===== src/Core/Detect.antt =====
-- crates/ctxward-core/src/detect.rs: rules, findings and the detector. The `regex` crate, SHA-256
-- and the floating-point part of the entropy are parameters.
pub mod Findings
pub mod Entropy
pub mod Scan
