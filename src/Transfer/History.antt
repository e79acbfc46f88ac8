-- ===== src/Transfer/History.antt =====
-- The stored history of transfers (src-tauri/src/remote/transfer_history.rs). serde_json is a parameter,
-- the file is what the runtime finds under its path.
pub mod Restore
pub mod RoundTrip
use hlem_ssh.Prelude.{
  ◌-◌, ℕ, ◌≡◌, ◌/◌, ◌%◌, ◌^◌, Bool, true, false, not, ◌&&◌, ◌||◌, String, List, [], ◌∷◌, ◌++◌,
  Option, none, some, map, take, max, str_eq, ◌==◌, if◌then◌else◌, All,
}
use hlem_ssh.Prelude.Text.{str_lt, Bytes}
use hlem_ssh.Prelude.Table
use hlem_ssh.Prelude.Table.{values}
use hlem_ssh.Transfer.Data.{
  TaskStatus, TransferInfo, TransferRequest, TransferRecord, AppError, AppResult,
  accepts_transfer_activity,
}
use hlem_ssh.Transfer.State.{Runtime, Transfers, max_transfer_history}
use hlem_ssh.Transfer.Queue.{clear_section, cleanup_all}

abbrev pub transfer_history_version : ℕ
transfer_history_version = 2

abbrev pub legacy_transfer_history_version : ℕ
legacy_transfer_history_version = 1

abbrev pub transfer_history_stopped_error : String
transfer_history_stopped_error = "程序已关闭，传输已停止"

pub record TransferHistorySnapshot : Type 0 where
  pub version : ℕ
  pub saved_at : String
  pub transfers : List TransferInfo

pub record PersistedTransferRecord : Type 0 where
  pub info : TransferInfo
  pub overwrite : Bool
  pub accelerated : Bool
  pub staging_path : String
  pub worker_parts : ℕ

pub record PersistedTransferHistorySnapshot : Type 0 where
  pub version : ℕ
  pub saved_at : String
  pub transfers : List PersistedTransferRecord

-- The exponent of an f64 is not all ones.
abbrev pub is_finite : ℕ → Bool
is_finite bits = not (bits / 2 ^ 52 % 2 ^ 11 == 2 ^ 11 - 1)

abbrev pub with_speed : (ℕ → ℕ) → PersistedTransferRecord → PersistedTransferRecord
with_speed f p = record p { info = record p.info { speed_kbps = f p.info.speed_kbps } }

-- What is in the file is of a type `D`, which only serde_json looks into: `serde_json::to_vec_pretty` and `from_slice`: what was printed is read again, a finite number
-- perhaps as its neighbour, and 0.0 as itself.
pub record Json (D : Type 0) : Type 0 where
  pub to_vec_pretty : PersistedTransferHistorySnapshot → D
  pub from_slice : D → Option PersistedTransferHistorySnapshot
  pub reread : ℕ → ℕ
  pub reread_zero : reread 0 ≡ 0
  pub from_slice-to_vec_pretty :
      (s : PersistedTransferHistorySnapshot)
      → All (λ (p : PersistedTransferRecord). is_finite p.info.speed_kbps ≡ true) s.transfers
      → from_slice (to_vec_pretty s)
        ≡ some (record s { transfers = map (with_speed reread) s.transfers })

-- What a read of the history's file meets.
pub data File (D : Type 0) : Type 0 where
  not_found unreadable : File D
  holds : D → File D

-- The runtime with the flag that the history was loaded, whether it has a path, the file under it,
-- and the invalid files that were put aside.
pub record Store (D : Type 0) : Type 0 where
  pub runtime : Runtime
  pub loaded : Bool
  pub has_path : Bool
  pub file : File D
  pub quarantined : List D

abbrev pub transfer_timestamp : TransferInfo → String
transfer_timestamp info = if str_eq info.updated_at "" then info.created_at else info.updated_at

-- `left` stands strictly before `right` in the history: newer, or as new with the larger id.
unfoldable pub is_before : TransferRecord → TransferRecord → Bool
is_before left right =
    str_lt (transfer_timestamp right.info) (transfer_timestamp left.info)
    || (str_eq (transfer_timestamp right.info) (transfer_timestamp left.info)
        && str_lt right.info.transfer_id left.info.transfer_id)

unfoldable pub insert_record : TransferRecord → List TransferRecord → List TransferRecord
insert_record x [] = x ∷ []
insert_record x (y ∷ ys) = if is_before y x then y ∷ insert_record x ys else x ∷ y ∷ ys

unfoldable pub sort_records : List TransferRecord → List TransferRecord
sort_records [] = []
sort_records (x ∷ xs) = insert_record x (sort_records xs)

unfoldable pub newest_records : Transfers → List TransferRecord
newest_records transfers = take max_transfer_history (sort_records (values transfers))

abbrev pub to_persisted : TransferRecord → PersistedTransferRecord
to_persisted r = record {
  info = r.info;
  overwrite = r.request.overwrite;
  accelerated = r.request.accelerated;
  staging_path = r.staging_path;
  worker_parts = max r.worker_parts 1;
}

unfoldable pub transfer_history_views_from_memory :
    String → Transfers → TransferHistorySnapshot × PersistedTransferHistorySnapshot
transfer_history_views_from_memory now transfers =
    let records = newest_records transfers in
    (
      record {
        version = transfer_history_version;
        saved_at = now;
        transfers = map (λ (r : TransferRecord). r.info) records;
      },
      record {
        version = transfer_history_version;
        saved_at = now;
        transfers = map to_persisted records;
      },
    )

unfoldable pub normalize_loaded_transfer : String → TransferInfo → TransferInfo
normalize_loaded_transfer now info =
    if accepts_transfer_activity info.status
    then record info {
      status = TaskStatus.canceled;
      speed_kbps = 0;
      error = some transfer_history_stopped_error;
      updated_at = now;
    }
    else elim info.status [ TaskStatus.completed ↦ record info { speed_kbps = 0 } | _ ↦ info ]

unfoldable pub request_from_transfer : TransferInfo → Bool → Bool → TransferRequest
request_from_transfer info overwrite accelerated = record {
  sftp_id = info.sftp_id;
  direction = info.direction;
  local_path = info.local_path;
  remote_path = info.remote_path;
  overwrite = overwrite;
  accelerated = accelerated;
  resume = false;
}

-- The record that a stored one becomes.
unfoldable pub restored : String → PersistedTransferRecord → TransferRecord
unfolding normalize_loaded_transfer request_from_transfer
restored now p =
    let info = normalize_loaded_transfer now p.info in
    record {
      info = info;
      request = request_from_transfer info p.overwrite p.accelerated;
      staging_path = p.staging_path;
      worker_parts = max p.worker_parts 1;
      cleanup_sftp = none;
      cancel = false;
      paused = false;
      notified = false;
      started = false;
      handle = none;
    }

-- `entry(..).or_insert_with(..)`
abbrev pub or_insert : TransferRecord → Transfers → Transfers
or_insert r m = elim (Table.get r.info.transfer_id m) [
  | none ↦ Table.insert r.info.transfer_id r m
  | some q ↦ m
]

unfoldable pub load_records : String → List PersistedTransferRecord → Transfers → Transfers
unfolding restored
load_records now [] m = m
load_records now (p ∷ ps) m = load_records now ps (or_insert (restored now p) m)

abbrev pub set_loaded : {D : Type 0} → Store D → Store D
set_loaded h = record h { loaded = true }

module _ {D : Type 0} (json : Json D) where
  -- `quarantine_invalid_transfer_history`: `renames` tells whether the rename works.
  quarantine : Bool → D → Store D → Store D
  quarantine renames bytes h =
      if renames
      then record h { file = File.not_found; quarantined = h.quarantined ++ bytes ∷ [] }
      else h

  load_snapshot : String → PersistedTransferHistorySnapshot → Store D → Store D
  load_snapshot now snapshot h =
      if not (snapshot.version == transfer_history_version)
        && not (snapshot.version == legacy_transfer_history_version)
      then set_loaded h
      else set_loaded (record h {
        runtime = record h.runtime {
          transfers = load_records now snapshot.transfers h.runtime.transfers;
        };
      })

  load_bytes : String → Bool → D → Option PersistedTransferHistorySnapshot → Store D → Store D
  unfolding quarantine load_snapshot
  load_bytes now renames bytes none h = set_loaded (quarantine renames bytes h)
  load_bytes now renames bytes (some snapshot) h = load_snapshot now snapshot h

  load_file : String → Bool → File D → Store D → AppResult (Unit {0}) × Store D
  unfolding load_bytes
  load_file now renames File.not_found h = (AppResult.ok tt, set_loaded h)
  load_file now renames File.unreadable h = (AppResult.err AppError.io, h)
  load_file now renames (File.holds bytes) h =
      (AppResult.ok tt, load_bytes now renames bytes (json.from_slice bytes) h)

  unfoldable pub ensure_transfer_history_loaded :
      String → Bool → Store D → AppResult (Unit {0}) × Store D
  unfolding load_file
  ensure_transfer_history_loaded now renames h =
      if h.loaded
      then (AppResult.ok tt, h)
      else if not h.has_path
      then (AppResult.ok tt, set_loaded h)
      else load_file now renames h.file h

  -- The write is atomic: it fails, or the file holds the new history.
  unfoldable pub persist_transfer_history :
      String → Bool → Store D → AppResult TransferHistorySnapshot × Store D
  persist_transfer_history now writes h =
      let (snapshot, persisted) = transfer_history_views_from_memory now h.runtime.transfers in
      if not h.has_path
      then (AppResult.ok snapshot, h)
      else if writes
      then (AppResult.ok snapshot, record h { file = File.holds (json.to_vec_pretty persisted) })
      else (AppResult.err AppError.io, h)
