-- ===== src/Transfer/Schedule.antt =====
-- The sections of src-tauri/src/remote/runtime_transfer.rs in any order, as the tasks of transfers,
-- the commands of the window and the closing of sessions run them; and the commands composed of them.
pub mod Cases
pub mod Bounds
pub mod Final
pub mod Flags
use hlem_ssh.Prelude.{ℕ, Bool, String, List, [], ◌∷◌}
use hlem_ssh.Transfer.Data.{TransferInfo, TransferRecord}
use hlem_ssh.Transfer.State.{
  Runtime, transfer_pause, transfer_resume, begin_cancel, mark_transfer_progress,
  mark_transfer_running, mark_completed, mark_failed,
}
use hlem_ssh.Transfer.Queue.{
  Prepared, new_transfer, cleanup_transfer_record_staging, finish_cancel, admit, forget,
  remove_finished, prune_section, clear_section,
}

pub data Section : Type 0 where
  pause resume : String → String → Section
  cancel : String → String → String → Section
  cancel_end : Bool → TransferRecord → TransferInfo → Section
  progress : ℕ → ℕ → String → String → Section
  running : String → String → Section
  completed : ℕ → String → String → Section
  failed : String → String → String → Section
  start : Bool → Prepared → Section
  rollback : String → Section
  remove : String → Section
  prune clear : Section
  cleanup : TransferRecord → Section

unfoldable pub run : Section → Runtime → Runtime
run (Section.pause now id) rt = (transfer_pause now id rt).1
run (Section.resume now id) rt = (transfer_resume now id rt).1
run (Section.cancel reason now id) rt = (begin_cancel reason now id rt).1
run (Section.cancel_end forced r info) rt = finish_cancel forced r info rt
run (Section.progress bytes speed now id) rt = mark_transfer_progress bytes speed now id rt
run (Section.running now id) rt = mark_transfer_running now id rt
run (Section.completed bytes now id) rt = mark_completed bytes now id rt
run (Section.failed error now id) rt = mark_failed error now id rt
run (Section.start live p) rt = (admit live (new_transfer p) rt).1
run (Section.rollback id) rt = (forget id rt).1
run (Section.remove id) rt = (remove_finished id rt).1
run Section.prune rt = (prune_section rt).1
run Section.clear rt = (clear_section rt).1
run (Section.cleanup r) rt = cleanup_transfer_record_staging r rt

unfoldable pub play : List Section → Runtime → Runtime
unfolding run
play [] rt = rt
play (s ∷ ss) rt = play ss (run s rt)
