-- ===== src/Transfer/Schedule/Cases.antt =====
-- What a section can do to the table of transfers (src-tauri/src/remote/runtime_transfer.rs).
use hlem_ssh.Prelude.{
  ℕ, Option, some, ◌≡◌, ◌<◌, refl, sym, subst, Bool, true, false, not, String, List, [], ◌∷◌,
  count_if, any, leb, arith, if_cases,
}
use hlem_ssh.Prelude.Table
use hlem_ssh.Prelude.Table.{values}
use hlem_ssh.Transfer.Data.{
  TransferInfo, TransferRecord, AppResult, is_active, is_finished, is_paused,
}
use hlem_ssh.Transfer.State
use hlem_ssh.Transfer.State.{
  Runtime, Transfers, Canceling, Emitted, store, mark, answer_if, is_pausable, found_cases,
  transfer_pause, transfer_resume, begin_cancel, mark_transfer_progress, mark_transfer_running,
  mark_completed, mark_failed, max_pending_transfers_per_sftp,
}
use hlem_ssh.Transfer.Queue.{
  Prepared, new_transfer, admit, forget, forget_all, remove_finished, prune_section, clear_section,
  surplus_ids, finished_ids, is_pending_on, holds_staging,
}
use hlem_ssh.Transfer.Queue.Staging.{
  cleanup_transfer_record_staging-transfers, finish_cancel-transfers,
}
use hlem_ssh.Transfer.Schedule.{Section, run}

-- The changes that sections make to an active transfer.
pub data Change : Type 0 where
  pause resume running : String → Change
  cancel failed : String → String → Change
  progress : ℕ → ℕ → String → Change
  completed : ℕ → String → Change

unfoldable pub changed : Change → TransferRecord → TransferRecord
changed (Change.pause now) = State.pause_record now
changed (Change.resume now) = State.resume_record now
changed (Change.running now) = State.running_record now
changed (Change.cancel reason now) = State.cancel_record reason now
changed (Change.failed error now) = State.failed_record error now
changed (Change.progress bytes speed now) = State.progress_record bytes speed now
changed (Change.completed bytes now) = State.completed_record bytes now

-- What `admit` has found when it takes a transfer.
pub record Admissible (r : TransferRecord) (m : Transfers) : Type 0 where
  pub room : count_if (is_pending_on r.info.sftp_id) (values m) < max_pending_transfers_per_sftp
  pub unused : any (holds_staging r.staging_path) (values m) ≡ false

module _ {κ} (P : Transfers → Type κ) where
  abbrev pub Stores : Transfers → Type κ
  Stores m =
      (id : String) (r : TransferRecord) (c : Change)
      → Table.get id m ≡ some r
      → is_active r ≡ true
      → P (Table.insert id (changed c r) m)

  abbrev pub Removes : Type κ
  Removes = (id : String) (m : Transfers) → P m → P (Table.remove id m)

  mark-cases :
      (c : Change) (event : TransferInfo → Emitted) (id : String) (rt : Runtime)
      → P rt.transfers
      → Stores rt.transfers
      → P (mark (changed c) event id rt).transfers
  mark-cases c event id rt p stores =
      found_cases (λ (next : Runtime). P next.transfers) (Table.get id rt.transfers) _ _ (λ _. p)
        λ r e.
          if_cases (λ (next : Runtime). P next.transfers) (is_active r) _ _ (λ a. stores id r c e a)
            (λ _. p)

  answer_if-cases :
      (test : TransferRecord → Bool) (c : Change) (event : TransferInfo → Emitted) (id : String)
      (rt : Runtime)
      → ((r : TransferRecord) → test r ≡ true → is_active r ≡ true)
      → P rt.transfers
      → Stores rt.transfers
      → P (answer_if test (changed c) event id rt).1.transfers
  answer_if-cases test c event id rt active p stores =
      found_cases (λ (a : AppResult TransferInfo × Runtime). P a.1.transfers)
        (Table.get id rt.transfers) _ _ (λ _. p)
        λ r e.
          if_cases (λ (a : AppResult TransferInfo × Runtime). P a.1.transfers) (test r) _ _
            (λ a. stores id r c e (active r a)) (λ _. p)

  begin_cancel-cases :
      (reason now id : String) (rt : Runtime)
      → P rt.transfers
      → Stores rt.transfers
      → P (begin_cancel reason now id rt).1.transfers
  unfolding begin_cancel changed
  begin_cancel-cases reason now id rt p stores =
      found_cases (λ (a : Canceling × Runtime). P a.1.transfers) (Table.get id rt.transfers) _ _
        (λ _. p)
        λ r e.
          if_cases (λ (a : Canceling × Runtime). P a.1.transfers) (is_active r) _ _
            (λ a. stores id r (Change.cancel reason now) e a) (λ _. p)

  forget_all-cases :
      (ids : List String) (rt : Runtime)
      → P rt.transfers
      → Removes
      → P (forget_all ids rt).1.transfers
  unfolding forget_all forget
  forget_all-cases [] rt p removes = p
  forget_all-cases (id ∷ ids) rt p removes =
      forget_all-cases ids (forget id rt).1 (removes id rt.transfers p) removes

  remove_finished-cases :
      (id : String) (rt : Runtime)
      → P rt.transfers
      → Removes
      → P (remove_finished id rt).1.transfers
  unfolding remove_finished forget
  remove_finished-cases id rt p removes =
      found_cases (λ (a : AppResult (Option TransferRecord) × Runtime). P a.1.transfers)
        (Table.get id rt.transfers) _ _ (λ _. p)
        λ r e.
          if_cases (λ (a : AppResult (Option TransferRecord) × Runtime). P a.1.transfers)
            (not (is_finished r)) _ _ (λ _. p) (λ _. removes id rt.transfers p)

  admit-cases :
      (live : Bool) (r : TransferRecord) (rt : Runtime)
      → P rt.transfers
      → (Admissible r rt.transfers → P (Table.insert r.info.transfer_id r rt.transfers))
      → P (admit live r rt).1.transfers
  unfolding admit
  admit-cases live r rt p starts =
      if_cases Kept (not live) _ _ (λ _. p)
        λ _.
          if_cases Kept
            (leb max_pending_transfers_per_sftp
              (count_if (is_pending_on r.info.sftp_id) (values rt.transfers)))
            _ _ (λ _. p)
            λ room.
              if_cases Kept (any (holds_staging r.staging_path) (values rt.transfers)) _ _ (λ _. p)
                λ unused. starts (record { room = ground arith; unused = unused })
    where
      Kept : AppResult TransferInfo × Runtime → Type κ
      Kept a = P a.1.transfers

is_pausable-is_active : (r : TransferRecord) → is_pausable r ≡ true → is_active r ≡ true
is_pausable-is_active r h = ground arith

is_paused-is_active : (r : TransferRecord) → is_paused r.info.status ≡ true → is_active r ≡ true
is_paused-is_active r h = ground arith

-- The section starts the transfer with this record.
abbrev pub IsStart : Section → TransferRecord → Type 0
IsStart s r = (live : Bool) × (p : Prepared) × (s ≡ Section.start live p) × (r ≡ new_transfer p)

-- What holds of the table before a section, after each change of an active transfer, each removal and
-- each admission holds after the section.
pub run-cases {κ} :
    (P : Transfers → Type κ) (s : Section) (rt : Runtime)
    → P rt.transfers
    → Stores P rt.transfers
    → Removes P
    → ((r : TransferRecord)
        → IsStart s r
        → Admissible r rt.transfers
        → P (Table.insert r.info.transfer_id r rt.transfers))
    → P (run s rt).transfers
unfolding run changed transfer_pause transfer_resume mark_transfer_progress mark_transfer_running
    mark_completed mark_failed prune_section clear_section forget
run-cases P (Section.pause now id) rt p stores removes starts =
    answer_if-cases P is_pausable (Change.pause now) Emitted.progress id rt is_pausable-is_active p
      stores
run-cases P (Section.resume now id) rt p stores removes starts =
    answer_if-cases P (λ r. is_paused r.info.status) (Change.resume now) Emitted.progress id rt
      is_paused-is_active p stores
run-cases P (Section.cancel reason now id) rt p stores removes starts =
    begin_cancel-cases P reason now id rt p stores
run-cases P (Section.cancel_end forced r info) rt p stores removes starts =
    subst P (sym (finish_cancel-transfers forced r info rt)) p
run-cases P (Section.progress bytes speed now id) rt p stores removes starts =
    mark-cases P (Change.progress bytes speed now) Emitted.progress id rt p stores
run-cases P (Section.running now id) rt p stores removes starts =
    mark-cases P (Change.running now) Emitted.progress id rt p stores
run-cases P (Section.completed bytes now id) rt p stores removes starts =
    mark-cases P (Change.completed bytes now) Emitted.completed id rt p stores
run-cases P (Section.failed error now id) rt p stores removes starts =
    mark-cases P (Change.failed error now) Emitted.failed id rt p stores
run-cases P (Section.start live n) rt p stores removes starts =
    admit-cases P live (new_transfer n) rt p (starts (new_transfer n) (live, n, refl, refl))
run-cases P (Section.rollback id) rt p stores removes starts = removes id rt.transfers p
run-cases P (Section.remove id) rt p stores removes starts = remove_finished-cases P id rt p removes
run-cases P Section.prune rt p stores removes starts =
    forget_all-cases P (surplus_ids rt.transfers) rt p removes
run-cases P Section.clear rt p stores removes starts =
    forget_all-cases P (finished_ids rt.transfers) rt p removes
run-cases P (Section.cleanup r) rt p stores removes starts =
    subst P (sym (cleanup_transfer_record_staging-transfers r rt)) p
