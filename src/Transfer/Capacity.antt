-- ===== src/Transfer/Capacity.antt =====
-- How a transfer's task waits for its share of the SFTP session's slots, and how many workers it has
-- (src-tauri/src/remote/runtime_transfer.rs).
use hlem_ssh.Prelude.{
  ◌||◌, is_some, ℕ, ◌≤◌, ◌≡◌, Bool, true, false, List, [], ◌∷◌, Option, none, some, arith, max,
  if◌then◌else◌, ◌⊎◌,
}
use hlem_ssh.Transfer.Data.{TransferRequest, AppError, AppResult}
use hlem_ssh.Transfer.Queue.{transfer_worker_parts, max_sftp_transfer_concurrency}

abbrev pub canceled_error : AppError
canceled_error = AppError.remote "传输已取消"

-- `ensure_transfer_not_canceled` of src-tauri/src/remote/transfer.rs.
abbrev pub ensure_transfer_not_canceled : Bool → AppResult (Unit {0})
ensure_transfer_not_canceled cancel =
    if cancel then AppResult.err canceled_error else AppResult.ok tt

-- What a round of the loop of `acquire_transfer_capacity` waits for: a change of a flag, its permits,
-- or the end of the semaphore.
pub data Wake : Type 0 where
  changed granted closed : Wake

-- The flags as a round reads them, first and again after its permits.
pub record Round : Type 0 where
  pub cancel : Bool
  pub paused : Bool
  pub wake : Wake
  pub cancel_then : Bool
  pub paused_then : Bool

-- A round that has its permits, and gives them back if the transfer was canceled or paused meanwhile.
granted_round : Round → Option (AppResult (Unit {0})) → Option (AppResult (Unit {0}))
granted_round r rest = elim (ensure_transfer_not_canceled r.cancel_then) [
  | AppResult.err e ↦ some (AppResult.err e)
  | AppResult.ok u ↦ if r.paused_then then rest else some (AppResult.ok tt)
]

acquire_round : Round → Option (AppResult (Unit {0})) → Option (AppResult (Unit {0}))
unfolding granted_round
acquire_round r rest = elim (ensure_transfer_not_canceled r.cancel) [
  | AppResult.err e ↦ some (AppResult.err e)
  | AppResult.ok u ↦ if r.paused then rest else elim r.wake [
    | Wake.changed ↦ rest
    | Wake.granted ↦ granted_round r rest
    | Wake.closed ↦ some (AppResult.err (AppError.remote "semaphore closed"))
  ]
]

-- The loop, over the rounds that have happened; `none` while it waits.
unfoldable pub acquire_transfer_capacity : List Round → Option (AppResult (Unit {0}))
unfolding acquire_round
acquire_transfer_capacity [] = none
acquire_transfer_capacity (r ∷ rounds) =
    let rest = acquire_transfer_capacity rounds in acquire_round r rest

-- The task may begin after this round.
abbrev pub Begins : List Round → Type 0
Begins [] = ⊥
Begins (r ∷ rounds) =
    ((r.cancel ≡ false) × (r.cancel_then ≡ false) × (r.paused_then ≡ false))
    ⊎ ((r.cancel ≡ false) × Begins rounds)

-- Some round of the wait finds the transfer canceled.
abbrev pub is_canceled : List Round → Bool
is_canceled [] = false
is_canceled (r ∷ rounds) = r.cancel || is_canceled rounds

-- A task gets its slots only in a round before and after whose wait its transfer is not canceled, and
-- which it does not leave paused, all rounds until then not canceled; and a task that meets a
-- canceled round has stopped waiting.
pub acquire_transfer_capacity_lem :
    (rounds : List Round)
    → (acquire_transfer_capacity rounds ≡ some (AppResult.ok tt) → Begins rounds)
      × (is_canceled rounds ≡ true → is_some (acquire_transfer_capacity rounds) ≡ true)
unfolding acquire_transfer_capacity acquire_round granted_round
acquire_transfer_capacity_lem [] = (λ h. cc, λ h. cc)
acquire_transfer_capacity_lem (r ∷ rounds) = ground (arith, acquire_transfer_capacity_lem rounds)

-- The workers of a transfer are at least one, at most `MAX_SFTP_TRANSFER_CONCURRENCY`, no more than
-- the bytes of a source that is not empty, and just one for a transfer that resumes.
pub transfer_worker_parts-bounds :
    (request : TransferRequest) (bytes_total : ℕ)
    → (1 ≤ transfer_worker_parts request bytes_total)
      × (transfer_worker_parts request bytes_total ≤ max_sftp_transfer_concurrency)
      × (transfer_worker_parts request bytes_total ≤ max bytes_total 1)
      × (request.resume ≡ true → transfer_worker_parts request bytes_total ≡ 1)
unfolding transfer_worker_parts
transfer_worker_parts-bounds request bytes_total = ground arith
