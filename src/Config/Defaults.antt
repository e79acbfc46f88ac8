-- ===== src/Config/Defaults.antt =====
-- The `Default` implementations of src-tauri/src/config.rs.
use hlem_ssh.Prelude.{ℕ, false, [], none}
use hlem_ssh.Prelude.Text.{codes}
use hlem_ssh.Prelude.Chars.{Text}
use hlem_ssh.Config.Data.{
  TerminalOptions, SshOptions, BackupSettings, CloudBackupSettings, WebdavBackupConfig,
  S3BackupConfig, AppSettings,
}

abbrev pub default_terminal_options : TerminalOptions
default_terminal_options = record {
  encoding = codes "utf-8";
  theme = codes "default";
  keepalive_interval_sec = 15;
}

abbrev pub default_ssh_options : SshOptions
default_ssh_options = record {
  connect_timeout_ms = 10000;
  keepalive_interval_sec = 15;
  host_key_fingerprint = none;
  proxy = none;
}

abbrev default_backup_frequency : Text
default_backup_frequency = codes "daily"

abbrev default_backup_retention_count : ℕ
default_backup_retention_count = 10

abbrev default_backup_retention_days : ℕ
default_backup_retention_days = 30

abbrev default_cloud_backup_kind : Text
default_cloud_backup_kind = codes "webdav"

abbrev default_s3_region : Text
default_s3_region = codes "us-east-1"

abbrev default_s3_backup_config : S3BackupConfig
default_s3_backup_config = record {
  endpoint = [];
  region = default_s3_region;
  bucket = [];
  access_key_id = [];
  secret_access_key = [];
  prefix = [];
  path_style = false;
}

abbrev default_webdav_backup_config : WebdavBackupConfig
default_webdav_backup_config = record {
  endpoint = [];
  username = [];
  password = [];
  remote_path = [];
}

abbrev pub default_cloud_backup_settings : CloudBackupSettings
default_cloud_backup_settings = record {
  enabled = false;
  auto_enabled = false;
  kind = default_cloud_backup_kind;
  webdav = default_webdav_backup_config;
  s3 = default_s3_backup_config;
}

abbrev pub default_backup_settings : BackupSettings
default_backup_settings = record {
  local_directory = none;
  auto_enabled = false;
  frequency = default_backup_frequency;
  retention_count = default_backup_retention_count;
  retention_days = default_backup_retention_days;
  cloud = default_cloud_backup_settings;
}

abbrev pub default_app_settings : AppSettings
default_app_settings = record {
  proxy = none;
  backup = default_backup_settings;
  quick_commands = [];
  ignored_update_versions = [];
  ai_api_key = none;
  ai_api_session_id = none;
  ai_api_session_ids = [];
  ai_api_port = none;
  ai_api_auto_start = false;
  collapsed_connection_section_ids = [];
}
