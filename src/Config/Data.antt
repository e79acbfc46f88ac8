-- ===== src/Config/Data.antt =====
-- The data of src-tauri/src/config.rs. A text is the list of its code points; the numbers of one or
-- two bytes are natural numbers, and no operation here adds to them.
use hlem_ssh.Prelude.{ℕ, Bool, List, Option}
use hlem_ssh.Prelude.Chars.{Text}

pub data AuthMethod : Type 0 where
  password private_key : AuthMethod

pub record SessionGroup : Type 0 where
  pub id : Text
  pub name : Text
  pub parent_id : Option Text
  pub sort_order : ℕ
  pub created_at : Text
  pub updated_at : Text

pub record AuthConfig : Type 0 where
  pub method : AuthMethod
  pub password : Option Text
  pub private_key_path : Option Text
  pub imported_private_key : Option Text
  pub private_key_passphrase : Option Text

pub record SshProxyOptions : Type 0 where
  pub kind : Text
  pub host : Text
  pub port : ℕ

pub record SshOptions : Type 0 where
  pub connect_timeout_ms : ℕ
  pub keepalive_interval_sec : ℕ
  pub host_key_fingerprint : Option Text
  pub proxy : Option SshProxyOptions

pub record TerminalOptions : Type 0 where
  pub encoding : Text
  pub theme : Text
  pub keepalive_interval_sec : ℕ

pub record SftpOptions : Type 0 where
  pub default_path : Text
  pub show_hidden : Bool

pub record SessionConfig : Type 0 where
  pub id : Text
  pub name : Text
  pub group_id : Option Text
  pub favorite : Bool
  pub last_connected_at : Option Text
  pub connection_count : ℕ
  pub host : Text
  pub port : ℕ
  pub username : Text
  pub auth : AuthConfig
  pub ssh : SshOptions
  pub default_path : Text
  pub tags : List Text
  pub note : Option Text
  pub terminal : TerminalOptions
  pub sftp : SftpOptions
  pub created_at : Text
  pub updated_at : Text

pub record KnownHostEntry : Type 0 where
  pub host : Text
  pub port : ℕ
  pub algorithm : Text
  pub fingerprint : Text
  pub trusted_at : Text

pub record AppProxyOptions : Type 0 where
  pub enabled : Bool
  pub kind : Text
  pub host : Text
  pub port : ℕ

pub record WebdavBackupConfig : Type 0 where
  pub endpoint : Text
  pub username : Text
  pub password : Text
  pub remote_path : Text

pub record S3BackupConfig : Type 0 where
  pub endpoint : Text
  pub region : Text
  pub bucket : Text
  pub access_key_id : Text
  pub secret_access_key : Text
  pub prefix : Text
  pub path_style : Bool

pub record CloudBackupSettings : Type 0 where
  pub enabled : Bool
  pub auto_enabled : Bool
  pub kind : Text
  pub webdav : WebdavBackupConfig
  pub s3 : S3BackupConfig

pub record BackupSettings : Type 0 where
  pub local_directory : Option Text
  pub auto_enabled : Bool
  pub frequency : Text
  pub retention_count : ℕ
  pub retention_days : ℕ
  pub cloud : CloudBackupSettings

pub record QuickCommand : Type 0 where
  pub id : Text
  pub name : Text
  pub command : Text
  pub created_at : Option Text
  pub updated_at : Option Text

pub record AppSettings : Type 0 where
  pub proxy : Option AppProxyOptions
  pub backup : BackupSettings
  pub quick_commands : List QuickCommand
  pub ignored_update_versions : List Text
  pub ai_api_key : Option Text
  pub ai_api_session_id : Option Text
  pub ai_api_session_ids : List Text
  pub ai_api_port : Option ℕ
  pub ai_api_auto_start : Bool
  pub collapsed_connection_section_ids : List Text

pub record TunnelConfig : Type 0 where
  pub id : Text
  pub enabled : Bool
  pub name : Text
  pub session_id : Text
  pub forward_type : Text
  pub bind_host : Text
  pub bind_port : ℕ
  pub target_host : Text
  pub target_port : ℕ
  pub created_at : Text
  pub updated_at : Text

pub record BackupRecord : Type 0 where
  pub id : Text
  pub file_name : Text
  pub target_kind : Text
  pub target_path : Text
  pub size : ℕ
  pub status : Text
  pub error : Option Text
  pub created_at : Text

pub record VaultData : Type 0 where
  pub version : ℕ
  pub groups : List SessionGroup
  pub sessions : List SessionConfig
  pub known_hosts : List KnownHostEntry
  pub settings : AppSettings
  pub tunnels : List TunnelConfig
  pub backup_records : List BackupRecord
  pub updated_at : Text

pub record TunnelInput : Type 0 where
  pub name : Text
  pub session_id : Text
  pub forward_type : Text
  pub bind_host : Text
  pub bind_port : ℕ
  pub target_host : Text
  pub target_port : ℕ

pub record TunnelPatch : Type 0 where
  pub name : Option Text
  pub session_id : Option Text
  pub forward_type : Option Text
  pub bind_host : Option Text
  pub bind_port : Option ℕ
  pub target_host : Option Text
  pub target_port : Option ℕ

pub record ConfigSnapshot : Type 0 where
  pub vault_data : VaultData
  pub revision : ℕ

pub record GroupInput : Type 0 where
  pub name : Text
  pub parent_id : Option Text

pub record SessionInput : Type 0 where
  pub name : Text
  pub group_id : Option Text
  pub host : Text
  pub port : ℕ
  pub username : Text
  pub auth : AuthConfig
  pub ssh : SshOptions
  pub default_path : Text
  pub tags : List Text
  pub note : Option Text
  pub terminal : TerminalOptions
  pub sftp : SftpOptions
