-- ===== src/Attachments.antt =====
-- src/attachments.rs: the attachments of a multipart request.
pub mod Errors
pub mod Multipart
pub mod Documents
pub mod Rewriting
pub mod Scan
pub mod Request
