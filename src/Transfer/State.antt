-- ===== src/Transfer/State.antt =====
-- The sections of src-tauri/src/remote/runtime_transfer.rs that run under the lock of the table of
-- transfers, and the deletion of staging files.
use hlem_ssh.Prelude.{
  ℕ, ◌≡◌, refl, Bool, true, false, String, List, [], ◌∷◌, ◌++◌, Option, none, some, if◌then◌else◌,
}
use hlem_ssh.Prelude.Table
use hlem_ssh.Prelude.Table.{Table, values}
use hlem_ssh.Transfer.Data.{
  TaskStatus, TransferDirection, TransferInfo, TransferRecord, AppError, AppResult, is_paused,
  is_active,
}

abbrev pub max_pending_transfers_per_sftp : ℕ
max_pending_transfers_per_sftp = 128

abbrev pub max_transfer_history : ℕ
max_transfer_history = 100

abbrev pub Transfers : Type 0
Transfers = Table TransferRecord

-- `events::emit`, with the information of the transfer.
pub data Emitted : Type 0 where
  progress completed failed : TransferInfo → Emitted

-- What `cleanup_transfer_staging` is asked to delete.
pub record Staging : Type 0 where
  pub direction : TransferDirection
  pub staging_path : String
  pub cleanup_sftp : Option ℕ

-- The table, what was emitted, and the staging files that were deleted, oldest first.
pub record Runtime : Type 0 where
  pub transfers : Transfers
  pub emitted : List Emitted
  pub deleted : List Staging

abbrev pub emit : Emitted → Runtime → Runtime
emit event rt = record rt { emitted = rt.emitted ++ event ∷ [] }

abbrev pub put : TransferRecord → Runtime → Runtime
put r rt = record rt { transfers = Table.insert r.info.transfer_id r rt.transfers }

-- `get_mut` and a change of what is found, under its key.
abbrev pub store : String → TransferRecord → Runtime → Runtime
store id r rt = record rt { transfers = Table.insert id r rt.transfers }

-- A lookup and what is done with its answer.
abbrev pub on_found {ℓ} : {A : Type ℓ} → Option TransferRecord → A → (TransferRecord → A) → A
on_found none missing found = missing
on_found (some r) missing found = found r

-- A property of what follows a lookup, by its answer.
pub found_cases {ℓ κ} :
    {X : Type ℓ} (P : X → Type κ) (o : Option TransferRecord) (x : X) (f : TransferRecord → X)
    → (o ≡ none → P x)
    → ((r : TransferRecord) → o ≡ some r → P (f r))
    → P (on_found o x f)
found_cases P none x f px pf = px refl
found_cases P (some r) x f px pf = pf r refl

-- `if let Some(record) = transfers.get_mut(id)`, for the handlers that answer nothing and leave a
-- finished transfer alone.
abbrev pub on_active : String → (TransferRecord → Runtime → Runtime) → Runtime → Runtime
on_active id act rt =
    on_found (Table.get id rt.transfers) rt λ r. if is_active r then act r rt else rt

-- The same, for those that answer the transfer's information.
abbrev pub answer_if :
    (TransferRecord → Bool)
    → (TransferRecord → TransferRecord)
    → (TransferInfo → Emitted)
    → String
    → Runtime
    → AppResult TransferInfo × Runtime
answer_if test change event id rt =
    on_found (Table.get id rt.transfers) (AppResult.err (AppError.missing_transfer id), rt)
      λ r.
        if test r
        then (AppResult.ok (change r).info, emit (event (change r).info) (store id (change r) rt))
        else (AppResult.ok r.info, rt)

abbrev pub is_pausable : TransferRecord → Bool
is_pausable r = elim r.info.status [
  | TaskStatus.queued ↦ true
  | TaskStatus.running ↦ true
  | _ ↦ false
]

abbrev pub with_info : TransferInfo → TransferRecord → TransferRecord
with_info info r = record r { info = info }

unfoldable pub pause_record : String → TransferRecord → TransferRecord
pause_record now r = record r {
  paused = true;
  notified = true;
  info = record r.info { status = TaskStatus.paused; speed_kbps = 0; updated_at = now };
}

unfoldable pub resume_record : String → TransferRecord → TransferRecord
resume_record now r = record r {
  paused = false;
  notified = true;
  info = record r.info {
    status = if r.started then TaskStatus.running else TaskStatus.queued;
    updated_at = now;
  };
}

-- `transfer_pause` and `transfer_resume`, up to the write of the history.
unfoldable pub transfer_pause : String → String → Runtime → AppResult TransferInfo × Runtime
transfer_pause now = answer_if is_pausable (pause_record now) Emitted.progress

unfoldable pub transfer_resume : String → String → Runtime → AppResult TransferInfo × Runtime
transfer_resume now = answer_if (λ r. is_paused r.info.status) (resume_record now) Emitted.progress

unfoldable pub cancel_record : String → String → TransferRecord → TransferRecord
cancel_record reason now r = record r {
  cancel = true;
  notified = true;
  handle = none;
  info = record r.info {
    status = TaskStatus.canceled;
    speed_kbps = 0;
    error = some reason;
    updated_at = now;
  };
}

-- The locked part of `cancel_transfer_in_place`: the record is as it was before its task was taken.
pub data Canceling : Type 0 where
  missing : Canceling
  finished : TransferInfo → Canceling
  stopped : TransferRecord → Canceling

unfoldable pub begin_cancel : String → String → String → Runtime → Canceling × Runtime
unfolding cancel_record
begin_cancel reason now id rt =
    on_found (Table.get id rt.transfers) (Canceling.missing, rt)
      λ r.
        if is_active r
        then (Canceling.stopped r, store id (cancel_record reason now r) rt)
        else (Canceling.finished r.info, rt)

abbrev pub status_when : Bool → TaskStatus
status_when paused = if paused then TaskStatus.paused else TaskStatus.running

unfoldable pub progress_record : ℕ → ℕ → String → TransferRecord → TransferRecord
progress_record bytes_done speed_kbps now r = record r {
  info = record r.info {
    status = status_when r.paused;
    bytes_done = bytes_done;
    speed_kbps = if r.paused then 0 else speed_kbps;
    updated_at = now;
  };
}

unfoldable pub running_record : String → TransferRecord → TransferRecord
running_record now r = record r {
  started = true;
  info = record r.info { status = status_when r.paused; speed_kbps = 0; updated_at = now };
}

unfoldable pub completed_record : ℕ → String → TransferRecord → TransferRecord
completed_record completed_bytes now r = record r {
  info = record r.info {
    status = TaskStatus.completed;
    bytes_done = completed_bytes;
    bytes_total = completed_bytes;
    speed_kbps = 0;
    updated_at = now;
  };
}

unfoldable pub failed_record : String → String → TransferRecord → TransferRecord
failed_record error now r = record r {
  info = record r.info {
    status = TaskStatus.failed;
    speed_kbps = 0;
    error = some error;
    updated_at = now;
  };
}

abbrev pub mark :
    (TransferRecord → TransferRecord) → (TransferInfo → Emitted) → String → Runtime → Runtime
mark change event id = on_active id λ r rt. emit (event (change r).info) (store id (change r) rt)

unfoldable pub mark_transfer_progress : ℕ → ℕ → String → String → Runtime → Runtime
mark_transfer_progress bytes_done speed_kbps now =
    mark (progress_record bytes_done speed_kbps now) Emitted.progress

unfoldable pub mark_transfer_running : String → String → Runtime → Runtime
mark_transfer_running now = mark (running_record now) Emitted.progress

-- `mark_transfer_completed` and `mark_transfer_failed`, up to the pruning.
unfoldable pub mark_completed : ℕ → String → String → Runtime → Runtime
mark_completed completed_bytes now = mark (completed_record completed_bytes now) Emitted.completed

unfoldable pub mark_failed : String → String → String → Runtime → Runtime
mark_failed error now = mark (failed_record error now) Emitted.failed
