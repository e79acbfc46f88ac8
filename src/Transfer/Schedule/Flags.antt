-- ===== src/Transfer/Schedule/Flags.antt =====
-- The flags that a transfer's task reads (src-tauri/src/remote/runtime_transfer.rs).
use hlem_ssh.Prelude.{
  ◌||◌, Bool, ◌≡◌, sym, ◌∙◌, subst, inl, inr, true, false, String, List, [], ◌∷◌, Option, none,
  some, str_eq, arith, Bool-cases,
}
use hlem_ssh.Prelude.Table
use hlem_ssh.Prelude.Table.{get-insert, get-remove}
use hlem_ssh.Transfer.Data.{is_finished, TransferRecord, is_active, is_paused}
use hlem_ssh.Transfer.State
use hlem_ssh.Transfer.State.{Runtime, Transfers}
use hlem_ssh.Transfer.Queue.{Prepared, new_transfer}
use hlem_ssh.Transfer.Schedule.{Section, run, play}
use hlem_ssh.Transfer.Schedule.Cases.{Change, changed, run-cases}

abbrev pub is_resting : TransferRecord → Bool
is_resting r = is_paused r.info.status || is_finished r

-- An active transfer is not flagged as canceled, and its pause flag tells whether it is paused; a
-- paused or finished transfer has no speed.
pub record IsFlagged (r : TransferRecord) : Type 0 where
  pub going : is_active r ≡ true → r.cancel ≡ false
  pub pausing : is_active r ≡ true → is_paused r.info.status ≡ r.paused
  pub still : is_resting r ≡ true → r.info.speed_kbps ≡ 0

abbrev pub AllFlagged : Transfers → Type 0
AllFlagged m = (id : String) (r : TransferRecord) → Table.get id m ≡ some r → IsFlagged r

changed-IsFlagged :
    (c : Change) (r : TransferRecord) → is_active r ≡ true → IsFlagged r → IsFlagged (changed c r)
unfolding changed State.pause_record State.resume_record State.cancel_record State.progress_record
    State.running_record State.completed_record State.failed_record
changed-IsFlagged (Change.pause now) r a v = ground arith
changed-IsFlagged (Change.resume now) r a v = ground arith
changed-IsFlagged (Change.running now) r a v = ground arith
changed-IsFlagged (Change.cancel reason now) r a v = ground arith
changed-IsFlagged (Change.failed error now) r a v = ground arith
changed-IsFlagged (Change.progress bytes speed now) r a v = ground arith
changed-IsFlagged (Change.completed bytes now) r a v = ground arith

new_transfer-IsFlagged : (p : Prepared) → IsFlagged (new_transfer p)
unfolding new_transfer
new_transfer-IsFlagged p = ground arith

pub flagged-insert :
    (j : String) (q : TransferRecord) (m : Transfers)
    → IsFlagged q
    → AllFlagged m
    → AllFlagged (Table.insert j q m)
flagged-insert j q m v all id r found = elim (Bool-cases (str_eq j id)) [
  | inl e ↦
      let here : Option.some q ≡ Option.some r = rw e at (sym (get-insert j id q m) ∙ found) in
      subst (λ (o : Option TransferRecord). elim o [ none ↦ Unit | some x ↦ IsFlagged x ]) here v
  | inr e ↦ all id r (rw e at (sym (get-insert j id q m) ∙ found))
]

flagged-remove : (j : String) (m : Transfers) → AllFlagged m → AllFlagged (Table.remove j m)
flagged-remove j m all id r found = elim (Bool-cases (str_eq j id)) [
  | inl e ↦ absurd (cc (rw e at (sym (get-remove j id m) ∙ found)))
  | inr e ↦ all id r (rw e at (sym (get-remove j id m) ∙ found))
]

-- If each transfer's flags fit its state, then so after any sections of tasks and commands in any
-- order: an active transfer is not flagged as canceled, its pause flag is raised exactly if its
-- state is paused, and a paused or finished transfer shows no speed.
pub play-AllFlagged :
    (ss : List Section) (rt : Runtime) → AllFlagged rt.transfers → AllFlagged (play ss rt).transfers
unfolding play
play-AllFlagged [] rt all = all
play-AllFlagged (s ∷ ss) rt all = play-AllFlagged ss (run s rt) (
    run-cases AllFlagged s rt all
      (λ id r c found a.
        flagged-insert id (changed c r) rt.transfers (changed-IsFlagged c r a (all id r found)) all)
      flagged-remove
      λ r start _.
        flagged-insert r.info.transfer_id r rt.transfers
          (subst IsFlagged (sym start.3) (new_transfer-IsFlagged start.1)) all)
