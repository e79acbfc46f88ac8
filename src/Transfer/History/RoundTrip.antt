-- ===== src/Transfer/History/RoundTrip.antt =====
-- The history of transfers that one run of the program writes and the next one loads (src-tauri/src/remote/transfer_history.rs).
use hlem_ssh.Prelude.{
  ◌≤◌, ◌≡◌, refl, sym, ap, ◌∙◌, Bool, true, false, String, [], none, some, length, arith, All,
}
use hlem_ssh.Prelude.Table
use hlem_ssh.Prelude.Table.{values, get-insert, length-values}
use hlem_ssh.Transfer.Data.{
  is_removable_transfer_state, TaskStatus, TransferInfo, TransferRecord, is_active, is_finished,
}
use hlem_ssh.Transfer.State.{Transfers, max_transfer_history}
use hlem_ssh.Transfer.History.{
  transfer_history_version, PersistedTransferHistorySnapshot, Json, File, Store, is_finite,
  newest_records, restored, load_records, normalize_loaded_transfer, request_from_transfer,
  transfer_history_stopped_error, transfer_history_views_from_memory, load_file, load_bytes,
  load_snapshot, ensure_transfer_history_loaded, persist_transfer_history,
}
use hlem_ssh.Transfer.History.Restore.{
  Keyed, stored, brought, get-load_records, find-newest_records, All-newest_records,
  All-to_persisted,
}

-- A transfer that has ended has no speed.
abbrev pub AllStill : Transfers → Type 0
AllStill m =
    (id : String) (r : TransferRecord)
    → Table.get id m ≡ some r
    → is_finished r ≡ true
    → r.info.speed_kbps ≡ 0

-- The transfer `q` of the next run for the transfer `r` of the last one.
pub record Restores (now : String) (r q : TransferRecord) : Type 0 where
  pub staging : q.staging_path ≡ r.staging_path
  pub policy :
      (q.request.overwrite ≡ r.request.overwrite)
      × (q.request.accelerated ≡ r.request.accelerated)
      × (q.request.resume ≡ false)
  pub idle : (q.started ≡ false) × (q.handle ≡ none)
  pub ended : is_finished r ≡ true → q.info ≡ r.info
  pub stopped :
      is_active r ≡ true
      → q.info ≡ record r.info {
        status = TaskStatus.canceled;
        speed_kbps = 0;
        error = some transfer_history_stopped_error;
        updated_at = now;
      }

normalize_loaded_transfer-finished :
    (now : String) (info : TransferInfo)
    → is_removable_transfer_state info.status ≡ true
    → info.speed_kbps ≡ 0
    → normalize_loaded_transfer now info ≡ info
unfolding normalize_loaded_transfer
normalize_loaded_transfer-finished now info e still = ground arith

module _ {D : Type 0} where
  -- A run of the program that begins with the file that another one left.
  abbrev pub restart : Store D → Store D
  restart h = record {
    runtime = record { transfers = []; emitted = []; deleted = [] };
    loaded = false;
    has_path = h.has_path;
    file = h.file;
    quarantined = h.quarantined;
  }

  restored-Restores :
      (now : String) (json : Json D) (r : TransferRecord)
      → (is_finished r ≡ true → r.info.speed_kbps ≡ 0)
      → Restores now r (restored now (stored json.reread r))
  unfolding restored normalize_loaded_transfer request_from_transfer
  restored-Restores now json r still = record {
    staging = refl;
    policy = (refl, refl, refl);
    idle = (refl, refl);
    ended = λ e.
        ap (λ s. normalize_loaded_transfer now (record r.info { speed_kbps = s }))
          (ap json.reread (still e) ∙ json.reread_zero ∙ sym (still e))
        ∙ normalize_loaded_transfer-finished now r.info e (still e);
    stopped = λ e. rw e refl;
  }

  -- The table of a runtime that has loaded the file of the last one.
  abbrev pub reloaded : Json D → String → String → Bool → Store D → Transfers
  reloaded json now later renames h =
      (ensure_transfer_history_loaded json later renames
        (restart (persist_transfer_history json now true h).1)).1.runtime.transfers

  persist-file :
      (json : Json D) (now : String) (h : Store D)
      → h.has_path ≡ true
      → (persist_transfer_history json now true h).1 ≡ record h {
        file =
            File.holds
              (json.to_vec_pretty (transfer_history_views_from_memory now h.runtime.transfers).1);
      }
  unfolding persist_transfer_history
  persist-file json now h path = rw path refl

  load-holds :
      (json : Json D) (now : String) (renames : Bool) (bytes : D) (h : Store D)
      (s : PersistedTransferHistorySnapshot)
      → h.loaded ≡ false
      → h.has_path ≡ true
      → h.file ≡ File.holds bytes
      → json.from_slice bytes ≡ some s
      → s.version ≡ transfer_history_version
      → (ensure_transfer_history_loaded json now renames h).1.runtime.transfers
        ≡ load_records now s.transfers h.runtime.transfers
  unfolding ensure_transfer_history_loaded load_file load_bytes load_snapshot
  load-holds json now renames bytes h s fresh path file read version =
      rw (fresh, path, file, read, version) refl

  reloaded-get :
      (json : Json D) (id now later : String) (renames : Bool) (h : Store D)
      → h.has_path ≡ true
      → Keyed h.runtime.transfers
      → length h.runtime.transfers ≤ max_transfer_history
      → All
          (λ (r : TransferRecord). is_finite r.info.speed_kbps ≡ true)
          (values h.runtime.transfers)
      → Table.get id (reloaded json now later renames h)
        ≡ brought later json.reread (Table.get id h.runtime.transfers)
  unfolding transfer_history_views_from_memory Table.get
  reloaded-get json id now later renames h path k few finite =
      ap
        (λ (s : Store D).
          Table.get id
            (ensure_transfer_history_loaded json later renames (restart s)).1.runtime.transfers)
        (persist-file json now h path)
      ∙ ap (Table.get id) (
          load-holds json later renames
            (json.to_vec_pretty (transfer_history_views_from_memory now h.runtime.transfers).1) _ _
            refl path refl
            (json.from_slice-to_vec_pretty
              (transfer_history_views_from_memory now h.runtime.transfers).1
              (All-to_persisted (newest_records h.runtime.transfers) (
                All-newest_records (λ (r : TransferRecord). is_finite r.info.speed_kbps ≡ true)
                  h.runtime.transfers finite)))
            refl)
      ∙ get-load_records id later json.reread (newest_records h.runtime.transfers) []
      ∙ ap (brought later json.reread) (find-newest_records id h.runtime.transfers k few)

  -- If the history has a path, the table's keys are its transfers' ids, each once, at most
  -- `MAX_TRANSFER_HISTORY` of them, with finite speeds, and those that have ended have no speed, then a
  -- history that is written, the write succeeding, and loaded by the next run of the program restores
  -- every transfer and nothing else: one that has ended with the same information, an active one as
  -- canceled, each with its staging path and its choices to overwrite and to accelerate, with no
  -- task, and with no request to resume, whatever it had.
  pub persist-Restores :
      (json : Json D) (id now later : String) (renames : Bool) (h : Store D)
      → h.has_path ≡ true
      → Keyed h.runtime.transfers
      → length h.runtime.transfers ≤ max_transfer_history
      → All
          (λ (r : TransferRecord). is_finite r.info.speed_kbps ≡ true)
          (values h.runtime.transfers)
      → AllStill h.runtime.transfers
      → ((r : TransferRecord)
          → Table.get id h.runtime.transfers ≡ some r
          → (q : TransferRecord) × (Table.get id (reloaded json now later renames h) ≡ some q)
            × Restores later r q)
        × (Table.get id h.runtime.transfers ≡ none
            → Table.get id (reloaded json now later renames h) ≡ none)
  persist-Restores json id now later renames h path k few finite all =
      let same = reloaded-get json id now later renames h path k few finite in
      (
        λ r found. (
          restored later (stored json.reread r),
          same ∙ ap (brought later json.reread) found,
          restored-Restores later json r (all id r found),
        ),
        λ absent. same ∙ ap (brought later json.reread) absent,
      )
