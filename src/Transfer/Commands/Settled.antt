-- ===== src/Transfer/Commands/Settled.antt =====
-- The table and the file of the history after a transfer has ended (src-tauri/src/remote/runtime_transfer.rs).
use hlem_ssh.Prelude.{◌≤◌, ◌≡◌, true, ◌&&◌, count_if, is_some}
use hlem_ssh.Prelude.Table
use hlem_ssh.Prelude.Table.{values}
use hlem_ssh.Transfer.Data.{is_active, is_finished}
use hlem_ssh.Transfer.State.{on_found, max_transfer_history}
use hlem_ssh.Transfer.History.{Store, File, transfer_history_views_from_memory}
use hlem_ssh.Transfer.Commands.{Moment, Command}

-- The history has no more ended transfers than its bound, and where it can be written, the file holds
-- it.
pub record IsSettled {D : Type 0} (at : Moment D) (next : Store D) : Type 0 where
  pub bounded : count_if is_finished (values next.runtime.transfers) ≤ max_transfer_history
  pub written :
      (next.has_path && at.writes) ≡ true
      → next.file
        ≡ File.holds (
            at.json.to_vec_pretty
              (transfer_history_views_from_memory at.now next.runtime.transfers).1)

-- A command after which the history is pruned and written.
abbrev pub Ends : {D : Type 0} → Command → Store D → Type 0
Ends (Command.completed bytes id) h =
    on_found (Table.get id h.runtime.transfers) true (λ r. is_active r) ≡ true
Ends (Command.failed error id) h =
    on_found (Table.get id h.runtime.transfers) true (λ r. is_active r) ≡ true
Ends (Command.cancel joined id) h = is_some (Table.get id h.runtime.transfers) ≡ true
Ends _ h = ⊥
