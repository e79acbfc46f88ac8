-- ===== src/Transfer/Examples.antt =====
-- The theorems on transfers, at a table of a few of them.
use hlem_ssh.Prelude.{
  ap, map, ◌≡◌, refl, ◌⊎◌, true, false, String, List, [], ◌∷◌, none, some, arith, count_if, ◌≤◌,
  is_some,
}
use hlem_ssh.Prelude.Table
use hlem_ssh.Prelude.Table.{values}
use hlem_ssh.Transfer.Data.{
  TaskStatus, TransferDirection, TransferRequest, TransferRecord, AppResult, is_finished,
}
use hlem_ssh.Transfer.State.{Runtime, begin_cancel, max_transfer_history}
use hlem_ssh.Transfer.History.{
  Json, File, Store, PersistedTransferHistorySnapshot, PersistedTransferRecord, with_speed,
}
use hlem_ssh.Transfer.History.RoundTrip.{Restores, reloaded, persist-Restores}
use hlem_ssh.Transfer.Commands.{Moment, Joined}
use hlem_ssh.Transfer.Commands.{cancel_transfer_in_place}
use hlem_ssh.Transfer.Commands.Cancel.{IsForced, cancel_transfer_in_place-IsForced}
use hlem_ssh.Transfer.Queue.{
  Prepared, new_transfer, transfer_worker_parts, cleanup_transfer_record_staging, prune_section,
}
use hlem_ssh.Transfer.Queue.Staging.{Spares, cleanup_transfer_record_staging-Spares}
use hlem_ssh.Transfer.Queue.Prune.{prune_section-bounds}
use hlem_ssh.Transfer.Schedule.{Section, play}
use hlem_ssh.Transfer.Schedule.Bounds.{IsWithin, play-IsWithin}
use hlem_ssh.Transfer.Schedule.Flags.{flagged-insert, AllFlagged, play-AllFlagged}
use hlem_ssh.Transfer.Schedule.Final.{cancel-play}
use hlem_ssh.Transfer.Capacity.{
  Round, Wake, acquire_transfer_capacity, Begins, is_canceled, acquire_transfer_capacity_lem,
}

abbrev request : TransferRequest
request = record {
  sftp_id = "sftp";
  direction = TransferDirection.download;
  local_path = "a.bin";
  remote_path = "/tmp/a.bin";
  overwrite = true;
  accelerated = false;
  resume = false;
}

abbrev prepared : String → Prepared
prepared id = record {
  request = request;
  transfer_id = id;
  session_id = "session";
  bytes_total = 20_000_000;
  staging_path = ".helm-1.part";
  created_at = "2026-01-01T00:00:00Z";
  updated_at = "2026-01-01T00:00:00Z";
  sftp = 1;
  task = 2;
}

abbrev first : TransferRecord
first = record {
  info = record {
    transfer_id = "t1";
    session_id = "session";
    sftp_id = "sftp";
    direction = TransferDirection.download;
    local_path = "a.bin";
    remote_path = "/tmp/a.bin";
    status = TaskStatus.queued;
    bytes_done = 0;
    bytes_total = 20_000_000;
    speed_kbps = 0;
    error = none;
    created_at = "2026-01-01T00:00:00Z";
    updated_at = "2026-01-01T00:00:00Z";
  };
  request = request;
  staging_path = ".helm-1.part";
  worker_parts = 4;
  cleanup_sftp = none;
  cancel = false;
  paused = false;
  notified = false;
  started = false;
  handle = some 2;
}

new_transfer_runs : new_transfer (prepared "t1") ≡ first
unfolding new_transfer transfer_worker_parts
new_transfer_runs = refl

abbrev empty : Runtime
empty = record { transfers = []; emitted = []; deleted = [] }

abbrev one : Runtime
one = record { transfers = ("t1", first) ∷ []; emitted = []; deleted = [] }

abbrev life : List Section
life =
    Section.start true (prepared "t1")
    ∷ Section.running "2026-01-01T00:00:01Z" "t1"
    ∷ Section.pause "2026-01-01T00:00:02Z" "t1"
    ∷ Section.progress 10 5 "2026-01-01T00:00:03Z" "t1"
    ∷ []

empty-IsWithin : IsWithin []
empty-IsWithin = record { pending = λ s. omega arith; apart = λ path. omega arith }

play-IsWithin_example : IsWithin (play life empty).transfers
play-IsWithin_example = play-IsWithin life empty empty-IsWithin

empty-AllFlagged : AllFlagged []
unfolding Table.get
empty-AllFlagged id r found = cc

play-AllFlagged_example : AllFlagged (play life empty).transfers
play-AllFlagged_example = play-AllFlagged life empty empty-AllFlagged

get-first : Table.get "t1" one.transfers ≡ some first
unfolding Table.get
get-first = refl

-- A canceled transfer stays so when its task reports progress.
abbrev late : List Section
late = Section.progress 10 5 "2026-01-01T00:00:05Z" "t1" ∷ Section.prune ∷ []

cancel-play_example :
    (Table.get "t1" (play late (begin_cancel "stop" "2026-01-01T00:00:04Z" "t1" one).1).transfers
      ≡ none)
    ⊎ ((q : TransferRecord) × (Table.get "t1"
            (play late (begin_cancel "stop" "2026-01-01T00:00:04Z" "t1" one).1).transfers
          ≡ some q)
        × (q.info.status ≡ TaskStatus.canceled)
        × (q.info.error ≡ some "stop")
        × (q.cancel ≡ true)
        × (q.handle ≡ none))
cancel-play_example =
    cancel-play "t1" "stop" "2026-01-01T00:00:04Z" first late one get-first refl (tt, (tt, tt))

cleanup_transfer_record_staging-Spares_example :
    Spares first one (cleanup_transfer_record_staging first one)
cleanup_transfer_record_staging-Spares_example = cleanup_transfer_record_staging-Spares first one

-- The table after the locked part of a cancellation of `first`.
abbrev stopped : TransferRecord
stopped = record first { info = record first.info { status = TaskStatus.canceled }; cancel = true }

abbrev canceling : Runtime
canceling = record { transfers = ("t1", stopped) ∷ []; emitted = []; deleted = [] }

prune_section-bounds_example :
    (count_if is_finished (values (prune_section canceling).1.transfers) ≤ max_transfer_history)
    × (count_if is_finished (values canceling.transfers) ≤ max_transfer_history
        → (prune_section canceling).1 ≡ canceling)
prune_section-bounds_example = prune_section-bounds canceling (unfold Table.get in (refl, tt))

abbrev waits : Round
waits = record {
  cancel = false;
  paused = false;
  wake = Wake.granted;
  cancel_then = false;
  paused_then = true;
}

acquire_transfer_capacity_lem_example :
    (acquire_transfer_capacity (waits ∷ []) ≡ some (AppResult.ok tt) → Begins (waits ∷ []))
    × (is_canceled (waits ∷ []) ≡ true → is_some (acquire_transfer_capacity (waits ∷ [])) ≡ true)
acquire_transfer_capacity_lem_example = acquire_transfer_capacity_lem (waits ∷ [])

-- A file that holds the history as it is.
with_speed_same : (ps : List PersistedTransferRecord) → ps ≡ map (with_speed (λ n. n)) ps
with_speed_same [] = refl
with_speed_same (p ∷ ps) = ap (λ qs. p ∷ qs) (with_speed_same ps)

abbrev plain : Json PersistedTransferHistorySnapshot
plain = record {
  to_vec_pretty = λ s. s;
  from_slice = λ s. some s;
  reread = λ n. n;
  reread_zero = refl;
  from_slice-to_vec_pretty =
      λ s finite. ap (λ ts. some (record s { transfers = ts })) (with_speed_same s.transfers);
}

abbrev store : Store PersistedTransferHistorySnapshot
store = record {
  runtime = one;
  loaded = true;
  has_path = true;
  file = File.not_found;
  quarantined = [];
}

abbrev moment : Moment PersistedTransferHistorySnapshot
moment = record { json = plain; now = "2026-01-01T00:00:09Z"; writes = true }

one-AllFlagged : AllFlagged one.transfers
unfolding Table.insert
one-AllFlagged = flagged-insert "t1" first [] (ground arith) empty-AllFlagged

persist-Restores_example :
    ((r : TransferRecord)
      → Table.get "t1" one.transfers ≡ some r
      → (q : TransferRecord) × (Table.get "t1"
            (reloaded plain "2026-01-01T00:00:09Z" "2026-01-02T00:00:00Z" true store)
          ≡ some q)
        × Restores "2026-01-02T00:00:00Z" r q)
    × (Table.get "t1" one.transfers ≡ none
        → Table.get "t1" (reloaded plain "2026-01-01T00:00:09Z" "2026-01-02T00:00:00Z" true store)
          ≡ none)
persist-Restores_example =
    persist-Restores plain "t1" "2026-01-01T00:00:09Z" "2026-01-02T00:00:00Z" true store refl
      (refl, unfold Table.get in refl, tt) (omega arith) (refl, tt)
      (λ id r found e. (one-AllFlagged id r found).still (ground arith))

cancel_transfer_in_place-IsForced_example :
    ((cancel_transfer_in_place Joined.timed_out "stop" "2026-01-01T00:00:04Z" "t1" one).1.deleted
      ≡ [])
    ⊎ IsForced Joined.timed_out "t1" one
        (cancel_transfer_in_place Joined.timed_out "stop" "2026-01-01T00:00:04Z" "t1" one).1
cancel_transfer_in_place-IsForced_example =
    cancel_transfer_in_place-IsForced Joined.timed_out "stop" "2026-01-01T00:00:04Z" "t1" one
