-- ===== src/Transfer/Queue.antt =====
-- Admission, removal and pruning of transfers, and the deletion of their staging files
-- (src-tauri/src/remote/runtime_transfer.rs).
pub mod Staging
pub mod Times
pub mod Prune
use hlem_ssh.Prelude.{
  min, max, ◌==◌, ◌||◌, ◌*◌, ℕ, false, true, ◌-◌, Bool, true, not, ◌&&◌, String, List, [], ◌∷◌,
  ◌++◌, Option, none, some, length, any, count_if, take, map, leb, ltb, str_eq, if◌then◌else◌,
}
use hlem_ssh.Prelude.Text.{str_lt}
use hlem_ssh.Prelude.Table
use hlem_ssh.Prelude.Table.{values}
use hlem_ssh.Transfer.Data.{
  TaskStatus, TransferDirection, TransferInfo, TransferRequest, TransferRecord, AppError, AppResult,
  is_active, is_finished, is_retryable_transfer_state, is_removable_transfer_state,
}
use hlem_ssh.Transfer.State.{
  Transfers, Runtime, Emitted, emit, on_found, put, max_pending_transfers_per_sftp,
  max_transfer_history,
}

-- A remote file can be deleted only while the session for it is kept.
abbrev pub can_delete : TransferDirection → Option ℕ → Bool
can_delete TransferDirection.upload none = false
can_delete TransferDirection.upload (some session) = true
can_delete TransferDirection.download sftp = true

-- `cleanup_transfer_staging` of src-tauri/src/remote/transfer.rs.
unfoldable pub cleanup_transfer_staging : TransferDirection → String → Option ℕ → Runtime → Runtime
cleanup_transfer_staging direction staging_path cleanup_sftp rt =
    if str_eq staging_path ""
    then rt
    else if can_delete direction cleanup_sftp
    then record rt {
      deleted =
          rt.deleted
          ++ record {
            direction = direction;
            staging_path = staging_path;
            cleanup_sftp = cleanup_sftp;
          }
            ∷ [];
    }
    else rt

abbrev pub shares_staging : TransferRecord → String × TransferRecord → Bool
shares_staging r (id, existing) =
    not (str_eq id r.info.transfer_id) && str_eq existing.staging_path r.staging_path

unfoldable pub cleanup_transfer_record_staging : TransferRecord → Runtime → Runtime
cleanup_transfer_record_staging r rt =
    if str_eq r.staging_path ""
    then rt
    else if any (shares_staging r) rt.transfers
    then rt
    else cleanup_transfer_staging r.request.direction r.staging_path r.cleanup_sftp rt

-- The forced end of a canceled task with several workers, and the event of the cancellation:
-- `forced_abort` is the answer of `cancel_and_join_transfer_task`.
unfoldable pub finish_cancel : Bool → TransferRecord → TransferInfo → Runtime → Runtime
finish_cancel forced_abort r info rt = emit (Emitted.failed info) (
    if forced_abort && ltb 1 r.worker_parts
    then cleanup_transfer_staging r.request.direction r.staging_path r.cleanup_sftp rt
    else rt)

abbrev pub max_sftp_transfer_concurrency : ℕ
max_sftp_transfer_concurrency = 4

abbrev pub parallel_threshold : TransferDirection → ℕ
parallel_threshold TransferDirection.upload = 16 * 1024 * 1024
parallel_threshold TransferDirection.download = 16 * 1024 * 1024

abbrev pub parallel_parts : TransferDirection → ℕ
parallel_parts TransferDirection.upload = 4
parallel_parts TransferDirection.download = 4

unfoldable pub transfer_worker_parts : TransferRequest → ℕ → ℕ
transfer_worker_parts request bytes_total =
    if request.resume || bytes_total == 0
    then 1
    else let configured =
        if leb (parallel_threshold request.direction) bytes_total
        then parallel_parts request.direction
        else 1 in
      max (min (min configured max_sftp_transfer_concurrency) (max bytes_total 1)) 1

-- What `start_transfer` has found out when it makes the record: the request with its normal remote
-- path, the fresh id, the session, the source's size and the staging path, the times that it reads,
-- the SFTP session and the spawned task.
pub record Prepared : Type 0 where
  pub request : TransferRequest
  pub transfer_id : String
  pub session_id : String
  pub bytes_total : ℕ
  pub staging_path : String
  pub created_at : String
  pub updated_at : String
  pub sftp : ℕ
  pub task : ℕ

abbrev pub kept_sftp : TransferDirection → ℕ → Option ℕ
kept_sftp TransferDirection.upload sftp = some sftp
kept_sftp TransferDirection.download sftp = none

unfoldable pub new_transfer : Prepared → TransferRecord
unfolding transfer_worker_parts
new_transfer p = record {
  info = record {
    transfer_id = p.transfer_id;
    session_id = p.session_id;
    sftp_id = p.request.sftp_id;
    direction = p.request.direction;
    local_path = p.request.local_path;
    remote_path = p.request.remote_path;
    status = TaskStatus.queued;
    bytes_done = 0;
    bytes_total = p.bytes_total;
    speed_kbps = 0;
    error = none;
    created_at = p.created_at;
    updated_at = p.updated_at;
  };
  request = p.request;
  staging_path = p.staging_path;
  worker_parts = transfer_worker_parts p.request p.bytes_total;
  cleanup_sftp = kept_sftp p.request.direction p.sftp;
  cancel = false;
  paused = false;
  notified = false;
  started = false;
  handle = some p.task;
}

abbrev pub is_pending_on : String → TransferRecord → Bool
is_pending_on sftp_id existing = str_eq existing.info.sftp_id sftp_id && is_active existing

abbrev pub holds_staging : String → TransferRecord → Bool
holds_staging staging_path existing =
    str_eq existing.staging_path staging_path && is_active existing

-- The end of `start_transfer`: the record is admitted or refused under the lock. `sftp_live` is what
-- the table of SFTP sessions answers.
unfoldable pub admit : Bool → TransferRecord → Runtime → AppResult TransferInfo × Runtime
admit sftp_live r rt =
    if not sftp_live
    then (AppResult.err (AppError.missing_sftp r.info.sftp_id), rt)
    else if leb max_pending_transfers_per_sftp
        (count_if (is_pending_on r.info.sftp_id) (values rt.transfers))
    then (AppResult.err (AppError.invalid_input "传输队列已满，请等待现有任务完成后重试"), rt)
    else if any (holds_staging r.staging_path) (values rt.transfers)
    then (AppResult.err (AppError.invalid_input "相同源文件和目标路径的传输任务正在进行"), rt)
    else (AppResult.ok r.info, emit (Emitted.progress r.info) (put r rt))

-- `transfers.remove(id)`, whatever the state of the record.
unfoldable pub forget : String → Runtime → Option TransferRecord × Runtime
forget id rt = (Table.get id rt.transfers, record rt { transfers = Table.remove id rt.transfers })

-- The locked part of `transfer_remove`.
unfoldable pub remove_finished : String → Runtime → AppResult (Option TransferRecord) × Runtime
unfolding forget
remove_finished id rt =
    on_found (Table.get id rt.transfers) (AppResult.ok none, rt)
      λ r.
        if not (is_removable_transfer_state r.info.status)
        then (AppResult.err (AppError.invalid_input "运行中的传输请先停止，再删除记录"), rt)
        else (AppResult.ok (some r), (forget id rt).1)

-- The locked part of `transfer_retry`: the request of the next transfer.
unfoldable pub retry_request : String → Runtime → AppResult TransferRequest
retry_request id rt =
    on_found (Table.get id rt.transfers) (AppResult.err (AppError.missing_transfer id)) λ r.
      if not (is_retryable_transfer_state r.info.status)
      then AppResult.err (AppError.invalid_input "只有失败或已取消的传输可以重试")
      else AppResult.ok (record r.request { resume = true })

-- The ids and times of the finished transfers, in the order of the table.
unfoldable pub finished_times : Transfers → List (String × String)
finished_times [] = []
finished_times ((id, r) ∷ transfers) =
    let rest = finished_times transfers in
    if is_finished r then (id, r.info.updated_at) ∷ rest else rest

-- `sort_by` on the times: stable.
unfoldable pub insert_by_time : String × String → List (String × String) → List (String × String)
insert_by_time x [] = x ∷ []
insert_by_time x (y ∷ ys) = if str_lt y.1 x.1 then y ∷ insert_by_time x ys else x ∷ y ∷ ys

unfoldable pub sort_by_time : List (String × String) → List (String × String)
unfolding insert_by_time
sort_by_time [] = []
sort_by_time (x ∷ xs) = insert_by_time x (sort_by_time xs)

unfoldable pub oldest_ids : ℕ → List (String × String) → List String
oldest_ids n finished = map (λ (x : String × String). x.0) (take n (sort_by_time finished))

-- The ids that `prune_transfer_history` removes.
unfoldable pub surplus_ids : Transfers → List String
unfolding oldest_ids
surplus_ids transfers =
    let finished = finished_times transfers in
    if leb (length finished) max_transfer_history
    then []
    else oldest_ids (length finished - max_transfer_history) finished

-- Removal of several transfers, each with what `remove` found, in order.
unfoldable pub forget_all : List String → Runtime → List TransferRecord × Runtime
unfolding forget
forget_all [] rt = ([], rt)
forget_all (id ∷ ids) rt =
    let (found, next) = forget id rt in
    let (removed, last) = forget_all ids next in
    (elim found [ none ↦ removed | some r ↦ r ∷ removed ], last)

-- The locked part of `prune_transfer_history`, and that of `clear_finished_transfer_history`
-- (src-tauri/src/remote/transfer_history.rs).
unfoldable pub prune_section : Runtime → List TransferRecord × Runtime
unfolding forget_all
prune_section rt = forget_all (surplus_ids rt.transfers) rt

unfoldable pub finished_ids : Transfers → List String
finished_ids [] = []
finished_ids ((id, r) ∷ transfers) =
    let rest = finished_ids transfers in if not (is_active r) then id ∷ rest else rest

unfoldable pub clear_section : Runtime → List TransferRecord × Runtime
unfolding forget_all
clear_section rt = forget_all (finished_ids rt.transfers) rt

-- The loop after it: each removed record's staging file.
unfoldable pub cleanup_all : List TransferRecord → Runtime → Runtime
unfolding cleanup_transfer_record_staging
cleanup_all [] rt = rt
cleanup_all (r ∷ rs) rt = cleanup_all rs (cleanup_transfer_record_staging r rt)

unfoldable pub prune_transfer_history : Runtime → Runtime
unfolding prune_section
prune_transfer_history rt = let (removed, next) = prune_section rt in cleanup_all removed next
