-- ===== src/Transfer/Commands.antt =====
-- The commands and reports of src-tauri/src/remote/runtime_transfer.rs and transfer_history.rs, composed
-- of the sections that they run under the lock of the table, each alone.
pub mod Cancel
pub mod Settled
use hlem_ssh.Prelude.{
  ℕ, Bool, true, false, not, String, List, [], ◌∷◌, Option, none, some, if◌then◌else◌,
}
use hlem_ssh.Prelude.Table
use hlem_ssh.Transfer.Data.{
  on_answer, TransferInfo, TransferRequest, TransferRecord, AppError, AppResult, is_active,
  is_paused,
}
use hlem_ssh.Transfer.State.{
  mark_transfer_running, mark_transfer_progress, Runtime, Canceling, on_found, is_pausable,
  transfer_pause, transfer_resume, begin_cancel, cancel_record, mark_completed, mark_failed,
}
use hlem_ssh.Transfer.Queue.{
  Prepared, new_transfer, admit, forget, remove_finished, retry_request, finish_cancel,
  cleanup_transfer_record_staging, prune_transfer_history, clear_section, cleanup_all,
}
use hlem_ssh.Transfer.History.{
  Json, Store, TransferHistorySnapshot, persist_transfer_history, ensure_transfer_history_loaded,
  transfer_history_views_from_memory,
}

-- How the wait for a canceled task ends.
pub data Joined : Type 0 where
  finished cancelled failed timed_out : Joined

-- `true` after a forced abort.
abbrev pub cancel_and_join_transfer_task : Joined → Option ℕ → Bool
cancel_and_join_transfer_task joined none = false
cancel_and_join_transfer_task Joined.timed_out (some task) = true
cancel_and_join_transfer_task _ (some task) = false

after_begin_cancel :
    Joined → String → String → Canceling × Runtime → String → AppResult TransferInfo × Runtime
after_begin_cancel joined reason now (Canceling.missing, rt) id =
    (AppResult.err (AppError.missing_transfer id), rt)
after_begin_cancel joined reason now (Canceling.finished info, rt) id = (AppResult.ok info, rt)
after_begin_cancel joined reason now (Canceling.stopped r, rt) id =
    let info = (cancel_record reason now r).info in
    (AppResult.ok info, finish_cancel (cancel_and_join_transfer_task joined r.handle) r info rt)

unfoldable pub cancel_transfer_in_place :
    Joined → String → String → String → Runtime → AppResult TransferInfo × Runtime
unfolding after_begin_cancel
cancel_transfer_in_place joined reason now id rt =
    after_begin_cancel joined reason now (begin_cancel reason now id rt) id

abbrev pub with_runtime : {D : Type 0} → Runtime → Store D → Store D
with_runtime rt h = record h { runtime = rt }

-- The staging file of what was removed.
abbrev pub cleaned : Option TransferRecord → Runtime → Runtime
cleaned removed rt = on_found removed rt λ r. cleanup_transfer_record_staging r rt

-- The clock and the write of the history's file, as one command meets them.
pub record Moment (D : Type 0) : Type 0 where
  pub json : Json D
  pub now : String
  pub writes : Bool

module _ {D : Type 0} (at : Moment D) where
  abbrev pub persist_best_effort : Store D → Store D
  persist_best_effort h = (persist_transfer_history at.json at.now at.writes h).1

  abbrev pub prune : Store D → Store D
  prune h = with_runtime (prune_transfer_history h.runtime) h

  -- `transfer_pause` and `transfer_resume` write the history only after a change.
  unfoldable pub pause_command : String → Store D → AppResult TransferInfo × Store D
  pause_command id h =
      let (answer, rt) = transfer_pause at.now id h.runtime in
      (
        answer,
        on_found (Table.get id h.runtime.transfers) h
            λ r. if is_pausable r then persist_best_effort (with_runtime rt h) else h,
      )

  unfoldable pub resume_command : String → Store D → AppResult TransferInfo × Store D
  resume_command id h =
      let (answer, rt) = transfer_resume at.now id h.runtime in
      (
        answer,
        on_found (Table.get id h.runtime.transfers) h
            λ r. if is_paused r.info.status then persist_best_effort (with_runtime rt h) else h,
      )

  unfoldable pub transfer_cancel : Joined → String → Store D → AppResult (Unit {0}) × Store D
  transfer_cancel joined id h =
      let (answer, rt) = cancel_transfer_in_place joined "传输已取消" at.now id h.runtime in
      on_answer answer (λ e. (AppResult.err e, with_runtime rt h))
        λ info. (AppResult.ok tt, persist_best_effort (prune (with_runtime rt h)))

  unfoldable pub transfer_remove : String → Store D → AppResult TransferHistorySnapshot × Store D
  transfer_remove id h =
      let (answer, rt) = remove_finished id h.runtime in
      on_answer answer (λ e. (AppResult.err e, with_runtime rt h))
        λ removed.
          persist_transfer_history at.json at.now at.writes (with_runtime (cleaned removed rt) h)

  -- A record is taken out of the table: that of a task that did not take its start, or that of a retry.
  unfoldable pub discard : String → Store D → Store D
  discard id h =
      let (removed, rt) = forget id h.runtime in
      persist_best_effort (with_runtime (cleaned removed rt) h)

  -- `sends` tells whether the task takes its start.
  unfoldable pub begin_transfer :
      Bool → String → TransferInfo → Store D → AppResult TransferInfo × Store D
  begin_transfer sends id info h =
      let kept = persist_best_effort h in
      if sends
      then (AppResult.ok info, kept)
      else (AppResult.err (AppError.remote "传输任务启动失败"), discard id kept)

  -- `prepare` is what `start_transfer` does before the lock.
  unfoldable pub start_transfer :
      (TransferRequest → AppResult Prepared)
      → Bool
      → Bool
      → TransferRequest
      → Store D
      → AppResult TransferInfo × Store D
  start_transfer prepare live sends request h =
      on_answer (prepare request) (λ e. (AppResult.err e, h))
        λ p.
          let (answer, rt) = admit live (new_transfer p) h.runtime in
          on_answer answer (λ e. (AppResult.err e, with_runtime rt h))
            λ info. begin_transfer sends p.transfer_id info (with_runtime rt h)

  unfoldable pub transfer_retry :
      (TransferRequest → AppResult Prepared)
      → Bool
      → Bool
      → String
      → Store D
      → AppResult TransferInfo × Store D
  transfer_retry prepare live sends id h =
      on_answer (retry_request id h.runtime) (λ e. (AppResult.err e, h))
        λ request.
          let (answer, next) = start_transfer prepare live sends request h in
          on_answer answer (λ e. (AppResult.err e, next))
            λ info. (AppResult.ok info, discard id next)

  -- The reports of a task's end do nothing for a transfer that has ended already.
  unfoldable pub mark_transfer_completed : ℕ → String → Store D → Store D
  mark_transfer_completed bytes id h =
      let next =
        persist_best_effort (prune (with_runtime (mark_completed bytes at.now id h.runtime) h)) in
      on_found (Table.get id h.runtime.transfers) next λ r. if is_active r then next else h

  unfoldable pub mark_transfer_failed : String → String → Store D → Store D
  mark_transfer_failed error id h =
      let next =
        persist_best_effort (prune (with_runtime (mark_failed error at.now id h.runtime) h)) in
      on_found (Table.get id h.runtime.transfers) next λ r. if is_active r then next else h

  unfoldable pub clear_finished_transfer_history :
      Bool → Store D → AppResult TransferHistorySnapshot × Store D
  clear_finished_transfer_history renames h =
      let (answer, loaded) = ensure_transfer_history_loaded at.json at.now renames h in
      on_answer answer (λ e. (AppResult.err e, loaded))
        λ u.
          let (removed, rt) = clear_section loaded.runtime in
          persist_transfer_history at.json at.now at.writes
            (with_runtime (cleanup_all removed rt) loaded)

  unfoldable pub transfer_history_snapshot :
      Bool → Store D → AppResult TransferHistorySnapshot × Store D
  transfer_history_snapshot renames h =
      let (answer, loaded) = ensure_transfer_history_loaded at.json at.now renames h in
      on_answer answer (λ e. (AppResult.err e, loaded))
        λ u. (
          AppResult.ok (transfer_history_views_from_memory at.now loaded.runtime.transfers).0,
          loaded,
        )

pub data Command : Type 0 where
  pause resume remove : String → Command
  cancel : Joined → String → Command
  start : (TransferRequest → AppResult Prepared) → Bool → Bool → TransferRequest → Command
  retry : (TransferRequest → AppResult Prepared) → Bool → Bool → String → Command
  progress : ℕ → ℕ → String → Command
  running : String → Command
  completed : ℕ → String → Command
  failed : String → String → Command
  clear : Bool → Command

-- What a command or a report leaves, whatever it answers.
unfoldable pub perform : {D : Type 0} → Moment D → Command → Store D → Store D
unfolding pause_command resume_command transfer_cancel transfer_remove start_transfer transfer_retry
    mark_transfer_completed mark_transfer_failed clear_finished_transfer_history
perform at (Command.pause id) h = (pause_command at id h).1
perform at (Command.resume id) h = (resume_command at id h).1
perform at (Command.remove id) h = (transfer_remove at id h).1
perform at (Command.cancel joined id) h = (transfer_cancel at joined id h).1
perform at (Command.start prepare live sends request) h =
    (start_transfer at prepare live sends request h).1
perform at (Command.retry prepare live sends id) h = (transfer_retry at prepare live sends id h).1
perform at (Command.progress bytes speed id) h =
    with_runtime (mark_transfer_progress bytes speed at.now id h.runtime) h
perform at (Command.running id) h = with_runtime (mark_transfer_running at.now id h.runtime) h
perform at (Command.completed bytes id) h = mark_transfer_completed at bytes id h
perform at (Command.failed error id) h = mark_transfer_failed at error id h
perform at (Command.clear renames) h = (clear_finished_transfer_history at renames h).1
