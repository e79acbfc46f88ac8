-- ===== src/Config/Examples/Preferences.antt =====
-- The theorems on settings, known hosts and backup records, at a vault with one session.
use hlem_ssh.Prelude.{ℕ, ◌≤◌, ◌≡◌, refl, Bool, true, [], ◌∷◌, none, some, arith}
use hlem_ssh.Prelude.Text.{codes, codes_lt}
use hlem_ssh.Prelude.Chars.{Text, trim, trim_end, trim_start, is_whitespace}
use hlem_ssh.Prelude.{count_if-le-length}
use hlem_ssh.Config.Data.{VaultData, QuickCommand, BackupRecord}
use hlem_ssh.Config.Session
use hlem_ssh.Config.Vault
use hlem_ssh.Config.Vault.{with_default_group, touch}
use hlem_ssh.Config.Validate.{AppResult, valid}
use hlem_ssh.Config.Store.Preferences.{AiApiSettingsUpdate, settings_ai_api_update, store_command}
use hlem_ssh.Config.Store.Preferences.Access.{Gives, settings_ai_api_update-Gives}
use hlem_ssh.Config.Store.Preferences.Commands.{IsNamed}
use hlem_ssh.Config.Store.Preferences.Put.{IsReplaced, IsAdded, store_command-stored}
use hlem_ssh.Prelude.{length, ◌⊎◌}
use hlem_ssh.Config.Settings.{
  validate_settings, check_app_proxy, validate_backup_settings, validate_quick_commands,
  check_commands, validate_collapsed_connection_section_ids,
}
use hlem_ssh.Config.Store.Hosts.{trust_host_key}
use hlem_ssh.Config.Store.Hosts.Laws.{Trusts, trust_host_key-Trusts}
use hlem_ssh.Config.Store.Records.{
  Locate, in_class, prune_backup_records, sort_newest, retention_limit,
}
use hlem_ssh.Config.Store.Records.Prune.{
  IsRetained, prune_backup_records-IsRetained, prune_backup_records-keeps,
}
use hlem_ssh.Config.Examples.{List, now, small_vault, server}

abbrev vault : VaultData
vault = record small_vault { sessions = Session.new (codes "s1") now server ∷ [] }

abbrev update : AiApiSettingsUpdate
update = record {
  session_ids = codes " s1" ∷ [] ∷ codes "s1" ∷ [];
  port = some 8765;
  auto_start = true;
}

settings_ai_api_update-Gives_example : Gives update (settings_ai_api_update update vault)
settings_ai_api_update-Gives_example = settings_ai_api_update-Gives update vault

abbrev uptime : QuickCommand
uptime = record {
  id = codes "c1";
  name = codes "load";
  command = codes "uptime";
  created_at = none;
  updated_at = none;
}

uptime-IsNamed : IsNamed uptime
unfolding trim trim_end trim_start is_whitespace
uptime-IsNamed = (refl, refl)

vault_valid : validate_settings vault.settings ≡ valid
unfolding validate_settings check_app_proxy with_default_group touch Vault.empty
    validate_backup_settings validate_quick_commands check_commands
    validate_collapsed_connection_section_ids
vault_valid = refl

store_command-stored_example :
    (ds : List QuickCommand) × (store_command uptime vault
      ≡ AppResult.ok (record vault { settings = record (vault.settings) { quick_commands = ds } }))
    × (length ds ≤ 100)
    × (IsReplaced uptime vault.settings.quick_commands ds
        ⊎ IsAdded uptime vault.settings.quick_commands ds)
store_command-stored_example = store_command-stored uptime vault uptime-IsNamed vault_valid

trust_host_key-Trusts_example :
    Trusts now (codes "10.0.0.1") 22 (codes "ssh-ed25519") (codes "SHA256:k") vault (
      trust_host_key now
        (codes "s1")
        (codes "10.0.0.1")
        22
        (codes "ssh-ed25519")
        (codes "SHA256:k")
        vault)
trust_host_key-Trusts_example =
    trust_host_key-Trusts now (codes "s1") (codes "10.0.0.1") 22 (codes "ssh-ed25519")
      (codes "SHA256:k") vault

-- Each stored path is where the file is.
abbrev everywhere : Locate
everywhere = record {
  local_backup_delete_path = λ settings r. some r.target_path;
  webdav_backup_delete_target = λ config r. some r.target_path;
  s3_backup_delete_key = λ config r. some r.target_path;
}

abbrev older_than : ℕ → BackupRecord → Bool
older_than days r = codes_lt r.created_at (codes "2025")

abbrev saved_once : VaultData
saved_once = record vault {
  backup_records =
      record {
        id = codes "b1";
        file_name = codes "helm-backup-1.zip";
        target_kind = codes "local";
        target_path = codes "/b/helm-backup-1.zip";
        size = 10;
        status = codes "success";
        error = none;
        created_at = now;
      }
      ∷ [];
}

prune_backup_records-IsRetained_example :
    IsRetained older_than true
      (codes "local")
      (prune_backup_records everywhere older_than none saved_once).0
prune_backup_records-IsRetained_example =
    prune_backup_records-IsRetained everywhere older_than none true (codes "local") saved_once

one_fits : (n : ℕ) → n ≤ 1 → n ≤ 10
one_fits n h = omega arith

saved_once-IsRetained : (ok : Bool) (kind : Text) → IsRetained older_than ok kind saved_once
unfolding retention_limit with_default_group touch Vault.empty
saved_once-IsRetained ok kind =
    (one_fits _ (count_if-le-length (in_class ok kind) saved_once.backup_records), (refl, tt))

prune_backup_records-keeps_example :
    prune_backup_records everywhere older_than none saved_once
    ≡ (record saved_once { backup_records = sort_newest saved_once.backup_records }, [])
prune_backup_records-keeps_example =
    prune_backup_records-keeps everywhere older_than none saved_once saved_once-IsRetained
