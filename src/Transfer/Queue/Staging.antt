-- ===== src/Transfer/Queue/Staging.antt =====
-- The deletion of staging files (src-tauri/src/remote/runtime_transfer.rs).
use hlem_ssh.Prelude.Table.{get-insert, values}
use hlem_ssh.Prelude.{
  ℕ, ◌≡◌, refl, Bool, false, ◌⊎◌, inl, inr, String, Option, [], ◌∷◌, ◌++◌, any, arith, if_cases,
  Bool-cases, some, ◌≢◌, str_eq, eq_iff,
}
use hlem_ssh.Transfer.Data.{TransferDirection, TransferInfo, TransferRecord}
use hlem_ssh.Transfer.State.{Runtime, Transfers, Staging}
use hlem_ssh.Prelude.Table
use hlem_ssh.Transfer.Queue.{
  can_delete, cleanup_transfer_staging, cleanup_transfer_record_staging, finish_cancel,
  shares_staging,
}

cleanup_transfer_staging-transfers :
    (direction : TransferDirection) (path : String) (sftp : Option ℕ) (rt : Runtime)
    → (cleanup_transfer_staging direction path sftp rt).transfers ≡ rt.transfers
unfolding cleanup_transfer_staging
cleanup_transfer_staging-transfers direction path sftp rt = ground arith

pub cleanup_transfer_record_staging-transfers :
    (r : TransferRecord) (rt : Runtime)
    → (cleanup_transfer_record_staging r rt).transfers ≡ rt.transfers
unfolding cleanup_transfer_record_staging
cleanup_transfer_record_staging-transfers r rt =
    ground (
      arith,
      cleanup_transfer_staging-transfers r.request.direction r.staging_path r.cleanup_sftp rt,
    )

pub finish_cancel-transfers :
    (forced : Bool) (r : TransferRecord) (info : TransferInfo) (rt : Runtime)
    → (finish_cancel forced r info rt).transfers ≡ rt.transfers
unfolding finish_cancel
finish_cancel-transfers forced r info rt =
    ground (
      arith,
      cleanup_transfer_staging-transfers r.request.direction r.staging_path r.cleanup_sftp rt,
    )

-- Nothing more was deleted than before, or one staging file under this path.
abbrev pub DeletedFor : String → Runtime → Runtime → Type 0
DeletedFor path rt next =
    (next.deleted ≡ rt.deleted)
    ⊎ ((s : Staging) × (next.deleted ≡ rt.deleted ++ s ∷ []) × (s.staging_path ≡ path))

pub cleanup_transfer_staging-DeletedFor :
    (direction : TransferDirection) (path : String) (sftp : Option ℕ) (rt : Runtime)
    → DeletedFor path rt (cleanup_transfer_staging direction path sftp rt)
unfolding cleanup_transfer_staging
cleanup_transfer_staging-DeletedFor direction path sftp rt =
    if_cases (DeletedFor path rt) (str_eq path "") _ _ (λ _. inl refl)
      λ _.
        if_cases (DeletedFor path rt) (can_delete direction sftp) _ _ (λ _. inr (_, refl, refl))
          (λ _. inl refl)

any-get :
    (p : String × TransferRecord → Bool) (id : String) (m : Transfers) {q : TransferRecord}
    → any p m ≡ false
    → Table.get id m ≡ some q
    → p (id, q) ≡ false
unfolding Table.get
any-get p id [] none_ h = cc
any-get p id ((j, r) ∷ m) {q} none_ h = elim (Bool-cases (str_eq j id)) [
  | inl e ↦
      let same : j ≡ id = (eq_iff j id).0 e in
      let first : p (j, r) ≡ false = ground arith in
      let found : Option.some r ≡ Option.some q = rw e at h in cc
  | inr e ↦ any-get p id m (ground arith) (ground arith)
]

-- Nothing more was deleted than before, or the staging file of a transfer, whose path no transfer of
-- another id in the table has.
abbrev pub Spares : TransferRecord → Runtime → Runtime → Type 0
Spares r rt next =
    (next.deleted ≡ rt.deleted)
    ⊎ ((s : Staging) × (next.deleted ≡ rt.deleted ++ s ∷ [])
        × (s.staging_path ≡ r.staging_path)
        × ((id : String) (q : TransferRecord)
            → Table.get id rt.transfers ≡ some q
            → id ≢ r.info.transfer_id
            → q.staging_path ≢ s.staging_path))

-- The clean-up after a removed transfer deletes nothing, or just its staging file, and then no
-- transfer of another id in the table, active or not, has the same staging path.
pub cleanup_transfer_record_staging-Spares :
    (r : TransferRecord) (rt : Runtime) → Spares r rt (cleanup_transfer_record_staging r rt)
unfolding cleanup_transfer_record_staging
cleanup_transfer_record_staging-Spares r rt =
    if_cases (Spares r rt) (str_eq r.staging_path "") _ _ (λ _. inl refl)
      λ _.
        if_cases (Spares r rt) (any (shares_staging r) rt.transfers) _ _ (λ _. inl refl)
          λ unshared.
            elim (cleanup_transfer_staging-DeletedFor r.request.direction r.staging_path
              r.cleanup_sftp rt) [
                | inl same ↦ inl same
                | inr (s, more, path) ↦ inr (
                  s,
                  more,
                  path,
                  λ id q found other same.
                      let unlike = any-get (shares_staging r) id rt.transfers unshared found in
                      ground
                        (arith, eq_iff id r.info.transfer_id, eq_iff q.staging_path r.staging_path),
                )
              ]
