-- ===== src/Transfer.antt =====
-- The file transfers of src-tauri/src/remote: their table, its handlers, and their stored history.
pub mod Data
pub mod State
pub mod Queue
pub mod Schedule
pub mod History
pub mod Commands
pub mod Capacity
pub mod Examples
