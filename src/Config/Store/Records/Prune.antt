-- ===== src/Config/Store/Records/Prune.antt =====
-- The records that are left when backup records are pruned (src-tauri/src/vault.rs).
use hlem_ssh.Prelude.{
  ℕ, ◌-◌, ◌≤◌, ◌≡◌, refl, ap, ◌∙◌, Bool, true, false, List, [], ◌∷◌, Option, count_if, arith,
  if_cases, All,
}
use hlem_ssh.Prelude.Text.{codes_lt}
use hlem_ssh.Prelude.Chars.{Text}
use hlem_ssh.Config.Data.{VaultData, BackupSettings, BackupRecord}
use hlem_ssh.Config.Store.Records.{
  BackupCleanupTarget, Locate, in_class, no_counts, retention_limit, insert_newest, before_cutoff,
  sort_newest, or_previous, backup_cleanup_target, prune_backup_records,
}
use hlem_ssh.Config.Store.Records.Retention.{
  kept_by, removed-bound, removed-fresh, prune_loop-nothing,
}

count_if-insert_newest :
    (p : BackupRecord → Bool) (r : BackupRecord) (rs : List BackupRecord)
    → count_if p (insert_newest r rs) ≡ count_if p (r ∷ rs)
unfolding insert_newest
count_if-insert_newest p r [] = refl
count_if-insert_newest p r (x ∷ xs) = ground (arith, count_if-insert_newest p r xs)

count_if-sort_newest :
    (p : BackupRecord → Bool) (rs : List BackupRecord) → count_if p (sort_newest rs) ≡ count_if p rs
unfolding sort_newest
count_if-sort_newest p [] = refl
count_if-sort_newest p (r ∷ rs) =
    count_if-insert_newest p r (sort_newest rs) ∙ rw (count_if-sort_newest p rs) refl

All-insert_newest :
    (P : BackupRecord → Type 0) (r : BackupRecord) (rs : List BackupRecord)
    → P r
    → All P rs
    → All P (insert_newest r rs)
unfolding insert_newest
All-insert_newest P r [] h hs = (h, tt)
All-insert_newest P r (x ∷ xs) h hs =
    if_cases (All P) (codes_lt r.created_at x.created_at) _ _
      (λ _. (hs.0, All-insert_newest P r xs h hs.1)) (λ _. (h, hs))

All-sort_newest :
    (P : BackupRecord → Type 0) (rs : List BackupRecord) → All P rs → All P (sort_newest rs)
unfolding sort_newest
All-sort_newest P [] h = tt
All-sort_newest P (r ∷ rs) h = All-insert_newest P r (sort_newest rs) h.0 (All-sort_newest P rs h.1)

keep_all : (rs : List BackupRecord) → kept_by [] rs ≡ rs
keep_all [] = refl
keep_all (r ∷ rs) = ap (λ (xs : List BackupRecord). r ∷ xs) (keep_all rs)

whole_limit : (n limit : ℕ) → n ≤ limit - 0 → n ≤ limit
whole_limit n limit h = omega arith

abbrev pub IsRetained : (ℕ → BackupRecord → Bool) → Bool → Text → VaultData → Type 0
IsRetained older_than ok kind v =
    (count_if (in_class ok kind) v.backup_records ≤ retention_limit v.settings.backup)
    × All
        (λ (r : BackupRecord). before_cutoff older_than v.settings.backup.retention_days r ≡ false)
        v.backup_records

-- After pruning, no more records of a kind have succeeded than the retention count allows, nor have
-- more failed, and no record that stays lies before the cutoff.
pub prune_backup_records-IsRetained :
    (locate : Locate) (older_than : ℕ → BackupRecord → Bool) (previous : Option BackupSettings)
    (ok : Bool) (kind : Text) (v : VaultData)
    → IsRetained older_than ok kind (prune_backup_records locate older_than previous v).0
unfolding prune_backup_records
prune_backup_records-IsRetained locate older_than previous ok kind v = (
  whole_limit _ _ (
      removed-bound (retention_limit v.settings.backup)
        (before_cutoff older_than v.settings.backup.retention_days)
        (λ r. or_previous locate previous r (backup_cleanup_target locate v.settings.backup r)) _ ok
        kind no_counts (sort_newest v.backup_records) (λ t h. h)),
  removed-fresh (retention_limit v.settings.backup)
      (before_cutoff older_than v.settings.backup.retention_days)
      (λ r. or_previous locate previous r (backup_cleanup_target locate v.settings.backup r)) _
      no_counts (sort_newest v.backup_records) (λ t h. h),
)

-- While no class of records is larger than the retention count and no record lies before the cutoff,
-- pruning removes nothing and cleans nothing up: it only sorts the records.
pub prune_backup_records-keeps :
    (locate : Locate) (older_than : ℕ → BackupRecord → Bool) (previous : Option BackupSettings)
    (v : VaultData)
    → ((ok : Bool) (kind : Text) → IsRetained older_than ok kind v)
    → prune_backup_records locate older_than previous v
      ≡ (record v { backup_records = sort_newest v.backup_records }, [])
unfolding prune_backup_records
prune_backup_records-keeps locate older_than previous v h =
    let settings = v.settings.backup in
    let target : BackupRecord → Option BackupCleanupTarget =
      λ r. or_previous locate previous r (backup_cleanup_target locate settings r) in
    let nothing =
      prune_loop-nothing (retention_limit settings)
        (before_cutoff older_than settings.retention_days) target no_counts
        (sort_newest v.backup_records)
        (λ ok kind.
          omega (arith, count_if-sort_newest (in_class ok kind) v.backup_records, (h ok kind).0))
        (All-sort_newest _ v.backup_records (h true []).1) in
    ap
      (λ (result : List Text × List BackupCleanupTarget).
        (record v { backup_records = kept_by result.0 (sort_newest v.backup_records) }, result.1))
      nothing
    ∙ ap (λ (rs : List BackupRecord). (record v { backup_records = rs }, []))
        (keep_all (sort_newest v.backup_records))
