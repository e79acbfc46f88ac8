-- ===== src/Transfer/Schedule/Bounds.antt =====
-- The numbers of active transfers (src-tauri/src/remote/runtime_transfer.rs).
use hlem_ssh.Prelude.{
  ℕ, suc, ◌≤◌, ◌≡◌, refl, subst, some, Bool, true, false, ◌&&◌, String, List, [], ◌∷◌, count_if,
  any, str_eq, eq_iff, arith,
}
use hlem_ssh.Prelude.Table
use hlem_ssh.Prelude.Table.{values, count-insert, count-insert_found, count-remove}
use hlem_ssh.Transfer.Data.{TransferRecord, is_active}
use hlem_ssh.Transfer.State
use hlem_ssh.Transfer.State.{Runtime, Transfers, max_pending_transfers_per_sftp}
use hlem_ssh.Transfer.Queue.{is_pending_on, holds_staging}
use hlem_ssh.Transfer.Schedule.{Section, run, play}
use hlem_ssh.Transfer.Schedule.Cases.{Change, changed, Admissible, run-cases}

-- The transfers that wait or run on an SFTP session, and those that write to a staging path.
pub record IsWithin (m : Transfers) : Type 0 where
  pub pending :
      (sftp_id : String)
      → count_if (is_pending_on sftp_id) (values m) ≤ max_pending_transfers_per_sftp
  pub apart : (path : String) → count_if (holds_staging path) (values m) ≤ 1

-- A change keeps the session and the staging path, and makes no transfer active.
changed-is_pending_on :
    (c : Change) (s : String) (r : TransferRecord)
    → is_active r ≡ true
    → is_pending_on s (changed c r) ≡ true
    → is_pending_on s r ≡ true
unfolding changed State.pause_record State.resume_record State.cancel_record State.progress_record
    State.running_record State.completed_record State.failed_record
changed-is_pending_on c s r a h = ground arith

changed-holds_staging :
    (c : Change) (path : String) (r : TransferRecord)
    → is_active r ≡ true
    → holds_staging path (changed c r) ≡ true
    → holds_staging path r ≡ true
unfolding changed State.pause_record State.resume_record State.cancel_record State.progress_record
    State.running_record State.completed_record State.failed_record
changed-holds_staging c path r a h = ground arith

stores-IsWithin :
    (id : String) (r : TransferRecord) (c : Change) (m : Transfers)
    → Table.get id m ≡ some r
    → is_active r ≡ true
    → IsWithin m
    → IsWithin (Table.insert id (changed c r) m)
stores-IsWithin id r c m found a v = record {
  pending = λ s. omega (
    arith,
    v.pending s,
    count-insert_found (is_pending_on s) id (changed c r) r m found (changed-is_pending_on c s r a),
  );
  apart = λ path. omega (
    arith,
    v.apart path,
    count-insert_found (holds_staging path) id (changed c r) r m found
        (changed-holds_staging c path r a),
  );
}

removes-IsWithin : (id : String) (m : Transfers) → IsWithin m → IsWithin (Table.remove id m)
removes-IsWithin id m v = record {
  pending = λ s. omega (arith, v.pending s, count-remove (is_pending_on s) id m);
  apart = λ path. omega (arith, v.apart path, count-remove (holds_staging path) id m);
}

count-none :
    (p : TransferRecord → Bool) (xs : List TransferRecord) → any p xs ≡ false → count_if p xs ≡ 0
count-none p [] h = refl
count-none p (x ∷ xs) h = ground (arith, count-none p xs)

count-admitted :
    (p : TransferRecord → Bool) (limit : ℕ) (id : String) (r : TransferRecord) (m : Transfers)
    → count_if p (values m) ≤ limit
    → (p r ≡ true → suc (count_if p (values m)) ≤ limit)
    → count_if p (values (Table.insert id r m)) ≤ limit
count-admitted p limit id r m h more = ground (arith, count-insert p id r m)

-- What a test of a text and of activity says of the text.
both : (s t : String) (b : Bool) → (str_eq s t && b) ≡ true → s ≡ t
both s t b h = ground (arith, eq_iff s t)

starts-IsWithin :
    (r : TransferRecord) (m : Transfers)
    → Admissible r m
    → IsWithin m
    → IsWithin (Table.insert r.info.transfer_id r m)
starts-IsWithin r m adm v = record {
  pending = λ s. count-admitted (is_pending_on s) _ r.info.transfer_id r m (v.pending s) λ h.
      subst
        (λ (x : String).
          suc (count_if (is_pending_on x) (values m)) ≤ max_pending_transfers_per_sftp)
        (both r.info.sftp_id s (is_active r) h) adm.room;
  apart = λ path. count-admitted (holds_staging path) 1 r.info.transfer_id r m (v.apart path) λ h.
      subst (λ (x : String). suc (count_if (holds_staging x) (values m)) ≤ 1)
        (both r.staging_path path (is_active r) h)
        (omega (arith, count-none (holds_staging r.staging_path) (values m) adm.unused));
}

-- If no more than `MAX_PENDING_TRANSFERS_PER_SFTP` transfers wait, run or pause on each SFTP
-- session, and no two of these write to one staging path, then so after any sections of tasks and
-- commands in any order, whatever they answer.
pub play-IsWithin :
    (ss : List Section) (rt : Runtime) → IsWithin rt.transfers → IsWithin (play ss rt).transfers
unfolding play
play-IsWithin [] rt v = v
play-IsWithin (s ∷ ss) rt v = play-IsWithin ss (run s rt) (
    run-cases IsWithin s rt v (λ id r c found a. stores-IsWithin id r c rt.transfers found a v)
      removes-IsWithin (λ r _ adm. starts-IsWithin r rt.transfers adm v))
