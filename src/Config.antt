-- ===== src/Config.antt =====
-- The stored configuration: src-tauri/src/config.rs, vault.rs and config_mutation.rs.
pub mod Data
pub mod Defaults
pub mod Path
pub mod Tags
pub mod Tunnel
pub mod Group
pub mod Session
pub mod Backup
pub mod Vault
pub mod Validate
pub mod Settings
pub mod Store
pub mod Mutation
pub mod Examples
