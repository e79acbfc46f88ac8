-- ===== src/Config/Settings.antt =====
-- The checks on settings of src-tauri/src/config.rs.
use hlem_ssh.Prelude.{
  ℕ, Bool, false, not, ◌&&◌, ◌||◌, List, [], ◌∷◌, Option, none, some, ◌==◌, ltb, length, any,
  if◌then◌else◌,
}
use hlem_ssh.Prelude.Text.{codes}
use hlem_ssh.Prelude.Chars.{Text, is_empty, same_text, contains_text, trim}
use hlem_ssh.Config.Data.{
  AppProxyOptions, AppSettings, BackupSettings, CloudBackupSettings, QuickCommand,
}
use hlem_ssh.Config.Validate.{
  AppError, Checked, AppResult, valid, unless, then_check, validate_proxy_fields,
}

abbrev pub collapsed_connection_section_max_count : ℕ
collapsed_connection_section_max_count = 32

abbrev pub connection_section_id_max_chars : ℕ
connection_section_id_max_chars = 128

-- The loop's body, for the ids before this one and those from it on.
check_section_ids : List Text → List Text → Checked
check_section_ids before [] = valid
check_section_ids before (id ∷ ids) =
    let trimmed = trim id in
    unless (is_empty trimmed) (AppError.invalid_input "连接分组标识不能为空") (
      unless (ltb connection_section_id_max_chars (length trimmed))
        (AppError.invalid_input "连接分组标识过长")
        (unless (any (λ previous. same_text (trim previous) trimmed) before)
          (AppError.invalid_input "连接分组折叠状态不能重复") (check_section_ids (id ∷ before) ids)))

unfoldable pub validate_collapsed_connection_section_ids : List Text → Checked
unfolding check_section_ids
validate_collapsed_connection_section_ids ids =
    unless (ltb collapsed_connection_section_max_count (length ids))
      (AppError.invalid_input "连接分组折叠状态最多保留 32 项") (check_section_ids [] ids)

unfoldable pub check_commands : List QuickCommand → Checked
check_commands [] = valid
check_commands (command ∷ commands) =
    unless (is_empty (trim command.name)) (AppError.invalid_input "常用命令名称不能为空") (
      unless (is_empty (trim command.command)) (AppError.invalid_input "常用命令内容不能为空")
        (check_commands commands))

unfoldable pub validate_quick_commands : List QuickCommand → Checked
validate_quick_commands commands =
    unless (ltb 100 (length commands)) (AppError.invalid_input "常用命令最多保留 100 条")
      (check_commands commands)

abbrev is_blank_directory : Option Text → Bool
is_blank_directory none = false
is_blank_directory (some directory) = is_empty (trim directory)

check_cloud : CloudBackupSettings → Checked
check_cloud cloud =
    if same_text cloud.kind (codes "webdav")
    then unless (is_empty (trim cloud.webdav.endpoint)) (AppError.invalid_input "WebDAV 地址不能为空")
        valid
    else if same_text cloud.kind (codes "s3")
    then unless
        (is_empty (trim cloud.s3.endpoint)
          || is_empty (trim cloud.s3.region)
          || is_empty (trim cloud.s3.bucket)
          || is_empty (trim cloud.s3.access_key_id)
          || is_empty (trim cloud.s3.secret_access_key))
        (AppError.invalid_input "S3 配置需要 endpoint、region、bucket、accessKeyId 和 secretAccessKey")
        valid
    else AppResult.err (AppError.invalid_input "云端备份类型无效")

unfoldable pub validate_backup_settings : BackupSettings → Checked
unfolding check_cloud
validate_backup_settings s =
    unless
      (not (
        contains_text (codes "manual" ∷ codes "hourly" ∷ codes "daily" ∷ codes "weekly" ∷ [])
          s.frequency))
      (AppError.invalid_input "自动备份频率无效")
      (unless (s.retention_count == 0) (AppError.invalid_input "保留份数必须大于 0") (
        unless (is_blank_directory s.local_directory) (AppError.invalid_input "本地备份目录不能为空")
          (if not s.cloud.enabled && not s.cloud.auto_enabled then valid else check_cloud s.cloud)))

unfoldable pub check_app_proxy : Option AppProxyOptions → Checked
check_app_proxy none = valid
check_app_proxy (some proxy) = validate_proxy_fields proxy.enabled proxy.kind proxy.host proxy.port

unfoldable pub validate_settings : AppSettings → Checked
validate_settings s = then_check (check_app_proxy s.proxy) (
    then_check (validate_backup_settings s.backup) (
      then_check (validate_quick_commands s.quick_commands)
        (validate_collapsed_connection_section_ids s.collapsed_connection_section_ids)))
