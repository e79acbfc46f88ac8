-- ===== src/Config/Store/Records.antt =====
-- The backup records of `VaultStore` (src-tauri/src/vault.rs) and how long they are kept, with
-- `backup_cleanup_target` of src-tauri/src/backup.rs. The paths and URLs that it compares are the
-- operating system's and those of the `url` crate: `Locate` gives what the comparisons find.
pub mod Retention
pub mod Prune
use hlem_ssh.Prelude.{
  ℕ, zero, suc, ◌+◌, ◌-◌, ◌<◌, ◌≤◌, max, ◌≡◌, refl, sym, ap, ◌∙◌, Bool, true, false, not, ◌&&◌,
  ◌||◌, List, [], ◌∷◌, ◌++◌, Option, none, some, ◌==◌, ltb, leb, length, any, map, drop, keep_if,
  count_if, if◌then◌else◌, is_none,
}
use hlem_ssh.Prelude.Text.{codes, codes_lt}
use hlem_ssh.Prelude.Chars.{Text, is_empty, same_text, contains_text, trim, starts_with}
use hlem_ssh.Config.Settings.{validate_settings}
use hlem_ssh.Config.Data.{
  VaultData, BackupSettings, BackupRecord, WebdavBackupConfig, S3BackupConfig,
}
use hlem_ssh.Config.Validate.{AppError, AppResult}
use hlem_ssh.Config.Store.{
  ◌&&◌, ◌==◌, false, same_text, keep_if, some, ◌∷◌, map, not, true, none, Bool, if◌then◌else◌, List,
  Text, ℕ, Option, Edited,
}

pub data BackupCleanupTarget : Type 0 where
  local : Text → BackupCleanupTarget
  webdav : WebdavBackupConfig → Text → BackupCleanupTarget
  s3 : S3BackupConfig → Text → BackupCleanupTarget

-- Where a record's file is, if it lies where the settings put backups.
pub record Locate : Type 0 where
  pub local_backup_delete_path : BackupSettings → BackupRecord → Option Text
  pub webdav_backup_delete_target : WebdavBackupConfig → BackupRecord → Option Text
  pub s3_backup_delete_key : S3BackupConfig → BackupRecord → Option Text

abbrev pub lower_ascii : ℕ → ℕ
lower_ascii c = if leb 0x41 c && leb c 0x5A then c + 0x20 else c

abbrev pub ends_with : Text → Text → Bool
ends_with suffix text = same_text (drop (length text - length suffix) text) suffix

unfoldable pub is_backup_file : Text → Bool
is_backup_file file_name =
    let lower = map lower_ascii file_name in
    starts_with (codes "helm-backup-") lower
    && (ends_with (codes ".zip") lower || ends_with (codes ".rpvault") lower)

abbrev pub map_target : (Text → BackupCleanupTarget) → Option Text → Option BackupCleanupTarget
map_target f none = none
map_target f (some text) = some (f text)

unfoldable pub backup_cleanup_target :
    Locate → BackupSettings → BackupRecord → Option BackupCleanupTarget
backup_cleanup_target locate settings r =
    if not (same_text r.status (codes "success")) || not (is_backup_file r.file_name)
    then none
    else if same_text r.target_kind (codes "local")
    then map_target BackupCleanupTarget.local (locate.local_backup_delete_path settings r)
    else if same_text r.target_kind (codes "webdav")
    then map_target (BackupCleanupTarget.webdav settings.cloud.webdav)
        (locate.webdav_backup_delete_target settings.cloud.webdav r)
    else if same_text r.target_kind (codes "s3")
    then map_target (BackupCleanupTarget.s3 settings.cloud.s3)
        (locate.s3_backup_delete_key settings.cloud.s3 r)
    else none

-- `.or_else(|| previous_settings.and_then(..))`
unfoldable pub or_previous :
    Locate
    → Option BackupSettings
    → BackupRecord
    → Option BackupCleanupTarget
    → Option BackupCleanupTarget
or_previous locate previous r (some target) = some target
or_previous locate none r none = none
or_previous locate (some settings) r none = backup_cleanup_target locate settings r

-- `sort_by(|left, right| right.created_at.cmp(&left.created_at))`, which is stable: the newest first.
unfoldable pub insert_newest : BackupRecord → List BackupRecord → List BackupRecord
insert_newest r [] = r ∷ []
insert_newest r (x ∷ xs) =
    let rest = insert_newest r xs in
    if codes_lt r.created_at x.created_at then x ∷ rest else r ∷ x ∷ xs

unfoldable pub sort_newest : List BackupRecord → List BackupRecord
sort_newest [] = []
sort_newest (r ∷ rs) = insert_newest r (sort_newest rs)

-- `success_counts` at `true`, `failure_counts` at `false`; a missing kind counts 0.
abbrev pub Counts : Type 0
Counts = Bool → Text → ℕ

abbrev pub in_class : Bool → Text → BackupRecord → Bool
in_class ok kind r =
    (if ok
      then same_text r.status (codes "success")
      else not (same_text r.status (codes "success")))
    && same_text r.target_kind kind

unfoldable pub count_record : BackupRecord → Counts → Counts
count_record r counts ok kind = if in_class ok kind r then suc (counts ok kind) else counts ok kind

-- The count of the record's own class.
abbrev pub own_count : BackupRecord → Counts → ℕ
own_count r counts = counts (same_text r.status (codes "success")) r.target_kind

-- The loop's body for a record that goes, before what the rest gives.
abbrev pub add_removed :
    BackupRecord
    → Option BackupCleanupTarget
    → List Text × List BackupCleanupTarget
    → List Text × List BackupCleanupTarget
add_removed r none (ids, targets) = (r.id ∷ ids, targets)
add_removed r (some target) (ids, targets) = (r.id ∷ ids, target ∷ targets)

-- The loop: the ids that go, and what is to be cleaned up. `too_old` compares a record's time with
-- the cutoff, and is `false` of a time that cannot be read.
unfoldable pub prune_loop :
    ℕ
    → (BackupRecord → Bool)
    → (BackupRecord → Option BackupCleanupTarget)
    → Counts
    → List BackupRecord
    → List Text × List BackupCleanupTarget
prune_loop limit too_old target counts [] = ([], [])
prune_loop limit too_old target counts (r ∷ rs) =
    let next = count_record r counts in
    let rest = prune_loop limit too_old target next rs in
    if ltb limit (own_count r next) || too_old r then add_removed r (target r) rest else rest

abbrev pub no_counts : Counts
no_counts ok kind = 0

-- `retention_count.max(1)`
unfoldable pub retention_limit : BackupSettings → ℕ
retention_limit settings = max settings.retention_count 1

abbrev pub before_cutoff : (ℕ → BackupRecord → Bool) → ℕ → BackupRecord → Bool
before_cutoff older_than days r = ltb 0 days && older_than days r

module _ (locate : Locate) (older_than : ℕ → BackupRecord → Bool) where
  -- The data with the records that stay, and the targets to clean up.
  unfoldable pub prune_backup_records :
      Option BackupSettings → VaultData → VaultData × List BackupCleanupTarget
  prune_backup_records previous v =
      let settings = v.settings.backup in
      let sorted = sort_newest v.backup_records in
      let (remove_ids, targets) =
        prune_loop (retention_limit settings) (before_cutoff older_than settings.retention_days)
          (λ r. or_previous locate previous r (backup_cleanup_target locate settings r)) no_counts
          sorted in
      (
        record v {
          backup_records =
              keep_if (λ (r : BackupRecord). not (contains_text remove_ids r.id)) sorted;
        },
        targets,
      )

  unfoldable pub replace_backup_records :
      List BackupRecord → VaultData → VaultData × List BackupCleanupTarget
  replace_backup_records records v =
      prune_backup_records none (record v { backup_records = records })

  unfoldable pub settings_backup_update :
      BackupSettings → VaultData → AppResult (VaultData × List BackupCleanupTarget)
  settings_backup_update backup v =
      let previous = v.settings.backup in
      let settings = record (v.settings) { backup = backup } in
      elim (validate_settings settings) [
        | AppResult.err error ↦ AppResult.err error
        | AppResult.ok u ↦
            AppResult.ok (prune_backup_records (some previous) (record v { settings = settings }))
      ]

-- `position` and `remove`: the first record of the id, and the list without it.
unfoldable pub take_record : Text → List BackupRecord → Option (BackupRecord × List BackupRecord)
take_record id [] = none
take_record id (r ∷ rs) =
    if same_text r.id id
    then some (r, rs)
    else elim (take_record id rs) [ none ↦ none | some (found, kept) ↦ some (found, r ∷ kept) ]

delete_found :
    Locate
    → Text
    → Bool
    → VaultData
    → Option (BackupRecord × List BackupRecord)
    → AppResult (VaultData × Option BackupCleanupTarget)
delete_found locate id delete_file v none = AppResult.err (AppError.not_found "备份记录 " id)
delete_found locate id delete_file v (some (r, kept)) = AppResult.ok (
  record v { backup_records = kept },
  if delete_file then backup_cleanup_target locate v.settings.backup r else none,
)

unfoldable pub delete_backup_record :
    Locate → Text → Bool → VaultData → AppResult (VaultData × Option BackupCleanupTarget)
unfolding delete_found
delete_backup_record locate id delete_file v =
    delete_found locate id delete_file v (take_record id v.backup_records)
