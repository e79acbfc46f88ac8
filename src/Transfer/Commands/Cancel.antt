-- ===== src/Transfer/Commands/Cancel.antt =====
-- What a cancellation deletes (src-tauri/src/remote/runtime_transfer.rs).
use hlem_ssh.Prelude.{
  Bool, ℕ, ◌<◌, ◌≡◌, refl, ap, ◌∙◌, true, ◌⊎◌, inl, inr, String, Option, none, some, List, [], ◌∷◌,
  ◌++◌, ltb, arith, Bool-cases, if_cases, ◌&&◌,
}
use hlem_ssh.Prelude.Table
use hlem_ssh.Transfer.Data.{TransferInfo, TransferRecord, is_active}
use hlem_ssh.Transfer.State.{
  Runtime, Staging, Canceling, begin_cancel, cancel_record, found_cases, store,
}
use hlem_ssh.Transfer.Queue.{finish_cancel}
use hlem_ssh.Transfer.Queue.Staging.{DeletedFor, cleanup_transfer_staging-DeletedFor}
use hlem_ssh.Transfer.Commands.{
  Joined, cancel_and_join_transfer_task, after_begin_cancel, cancel_transfer_in_place,
}

-- One staging file was deleted: that of an active transfer of several workers, whose task did not end
-- in time.
abbrev pub IsForced : Joined → String → Runtime → Runtime → Type 0
IsForced joined id rt next =
    (r : TransferRecord) × (s : Staging) × (task : ℕ) × (Table.get id rt.transfers ≡ some r)
    × (is_active r ≡ true)
    × (joined ≡ Joined.timed_out)
    × (r.handle ≡ some task)
    × (1 < r.worker_parts)
    × (next.deleted ≡ rt.deleted ++ s ∷ [])
    × (s.staging_path ≡ r.staging_path)

joined_forced :
    (joined : Joined) (handle : Option ℕ)
    → cancel_and_join_transfer_task joined handle ≡ true
    → (joined ≡ Joined.timed_out) × ((task : ℕ) × (handle ≡ some task))
joined_forced Joined.timed_out (some task) h = (refl, (task, refl))
joined_forced Joined.timed_out none h = absurd cc
joined_forced Joined.finished none h = absurd cc
joined_forced Joined.cancelled none h = absurd cc
joined_forced Joined.failed none h = absurd cc
joined_forced Joined.finished (some task) h = absurd cc
joined_forced Joined.cancelled (some task) h = absurd cc
joined_forced Joined.failed (some task) h = absurd cc

-- The end of a cancellation, forced or not.
finish_cancel-DeletedFor :
    (forced : Bool) (r : TransferRecord) (info : TransferInfo) (rt : Runtime)
    → ((finish_cancel forced r info rt).deleted ≡ rt.deleted)
      ⊎ ((forced ≡ true)
          × (1 < r.worker_parts)
          × DeletedFor r.staging_path rt (finish_cancel forced r info rt))
unfolding finish_cancel
finish_cancel-DeletedFor forced r info rt = elim (Bool-cases (forced && ltb 1 r.worker_parts)) [
  | inl e ↦ inr (
    ground (arith, e),
    ground (arith, e),
    rw e (cleanup_transfer_staging-DeletedFor r.request.direction r.staging_path r.cleanup_sftp rt),
  )
  | inr e ↦ inl (rw e refl)
]

stopped-IsForced :
    (joined : Joined) (id : String) (rt next : Runtime) (r : TransferRecord) (info : TransferInfo)
    → Table.get id rt.transfers ≡ some r
    → is_active r ≡ true
    → next.deleted ≡ rt.deleted
    → let last = finish_cancel (cancel_and_join_transfer_task joined r.handle) r info next in
      (last.deleted ≡ rt.deleted) ⊎ IsForced joined id rt last
stopped-IsForced joined id rt next r info found active same =
    elim (finish_cancel-DeletedFor (cancel_and_join_transfer_task joined r.handle) r info next) [
      | inl kept ↦ inl (kept ∙ same)
      | inr (forced, several, inl kept) ↦ inl (kept ∙ same)
      | inr (forced, several, inr (s, more, own)) ↦
          let (late, (task, held)) = joined_forced joined r.handle forced in
          inr (
            r,
            s,
            task,
            found,
            active,
            late,
            held,
            several,
            more ∙ ap (λ (d : List Staging). d ++ s ∷ []) same,
            own,
          )
    ]

-- A cancellation deletes no file, or just one: then the transfer was active and had several workers,
-- its task did not end in time and was aborted, and the file is the transfer's own staging file.
pub cancel_transfer_in_place-IsForced :
    (joined : Joined) (reason now id : String) (rt : Runtime)
    → ((cancel_transfer_in_place joined reason now id rt).1.deleted ≡ rt.deleted)
      ⊎ IsForced joined id rt (cancel_transfer_in_place joined reason now id rt).1
unfolding cancel_transfer_in_place after_begin_cancel begin_cancel
cancel_transfer_in_place-IsForced joined reason now id rt =
    found_cases Spares (Table.get id rt.transfers) _ _ (λ _. inl refl)
      λ r found.
        if_cases Spares (is_active r) _ _
          (λ active.
            stopped-IsForced joined id rt (store id (cancel_record reason now r) rt) r
              (cancel_record reason now r).info found active refl)
          (λ _. inl refl)
  where
    Spares : Canceling × Runtime → Type 0
    Spares begun =
        ((after_begin_cancel joined reason now begun id).1.deleted ≡ rt.deleted)
        ⊎ IsForced joined id rt (after_begin_cancel joined reason now begun id).1
