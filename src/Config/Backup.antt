-- ===== src/Config/Backup.antt =====
-- `BackupRecord` of src-tauri/src/config.rs.
use hlem_ssh.Prelude.{ℕ, ◌++◌, none, some}
use hlem_ssh.Prelude.Text.{codes}
use hlem_ssh.Prelude.Chars.{Text}
use hlem_ssh.Config.Data.{BackupRecord}

unfoldable pub listed : Text → Text → Text → ℕ → Text → BackupRecord
listed file_name target_kind target_path size created_at = record {
  id = target_kind ++ codes ":" ++ target_path;
  file_name = file_name;
  target_kind = target_kind;
  target_path = target_path;
  size = size;
  status = codes "success";
  error = none;
  created_at = created_at;
}

unfoldable pub success : Text → Text → Text → Text → Text → ℕ → BackupRecord
success id now file_name target_kind target_path size = record {
  id = id;
  file_name = file_name;
  target_kind = target_kind;
  target_path = target_path;
  size = size;
  status = codes "success";
  error = none;
  created_at = now;
}

unfoldable pub failed : Text → Text → Text → Text → Text → Text → BackupRecord
failed id now file_name target_kind target_path error = record {
  id = id;
  file_name = file_name;
  target_kind = target_kind;
  target_path = target_path;
  size = 0;
  status = codes "failed";
  error = some error;
  created_at = now;
}
