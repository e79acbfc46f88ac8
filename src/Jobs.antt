-- ===== src/Jobs.antt =====
-- Background command jobs of the HTTP gateway: src-tauri/src/api_server/jobs.rs.
pub mod Data
pub mod Tail
pub mod Events
pub mod Record
pub mod Registry
pub mod Examples
