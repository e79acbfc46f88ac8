-- ===== src/Transfer/Data.antt =====
-- The data of transfers: `TransferInfo`, `TransferRequest` and `TransferRecord` of
-- src-tauri/src/remote.rs. A speed is the bit pattern of its f64, so 0.0 is 0; a session for the
-- deletion of a staging file and the handle of a task are numbers.
use hlem_ssh.Prelude.{◌≡◌, refl, ℕ, Bool, true, false, String, Option}

pub data TaskStatus : Type 0 where
  queued running paused completed failed canceled : TaskStatus

pub data TransferDirection : Type 0 where
  upload download : TransferDirection

pub record TransferInfo : Type 0 where
  pub transfer_id : String
  pub session_id : String
  pub sftp_id : String
  pub direction : TransferDirection
  pub local_path : String
  pub remote_path : String
  pub status : TaskStatus
  pub bytes_done : ℕ
  pub bytes_total : ℕ
  pub speed_kbps : ℕ
  pub error : Option String
  pub created_at : String
  pub updated_at : String

pub record TransferRequest : Type 0 where
  pub sftp_id : String
  pub direction : TransferDirection
  pub local_path : String
  pub remote_path : String
  pub overwrite : Bool
  pub accelerated : Bool
  pub resume : Bool

-- `notified` is the permit that `control_notify` stores.
pub record TransferRecord : Type 0 where
  pub info : TransferInfo
  pub request : TransferRequest
  pub staging_path : String
  pub worker_parts : ℕ
  pub cleanup_sftp : Option ℕ
  pub cancel : Bool
  pub paused : Bool
  pub notified : Bool
  pub started : Bool
  pub handle : Option ℕ

pub data AppError : Type 0 where
  missing_transfer missing_sftp invalid_input remote : String → AppError
  io invalid_json : AppError

pub data AppResult {ℓ} (A : Type ℓ) : Type ℓ where
  ok : A → AppResult A
  err : AppError → AppResult A

-- `match` or `?` on an answer, and what holds of the outcome.
abbrev pub on_answer {ℓ κ} : {A : Type ℓ} {B : Type κ} → AppResult A → (AppError → B) → (A → B) → B
on_answer (AppResult.ok a) on_err on_ok = on_ok a
on_answer (AppResult.err e) on_err on_ok = on_err e

pub answer_cases {ℓ κ μ} :
    {A : Type ℓ} {B : Type κ} (P : B → Type μ) (o : AppResult A) (f : AppError → B) (g : A → B)
    → ((e : AppError) → o ≡ AppResult.err e → P (f e))
    → ((a : A) → o ≡ AppResult.ok a → P (g a))
    → P (on_answer o f g)
answer_cases P (AppResult.ok a) f g pf pg = pg a refl
answer_cases P (AppResult.err e) f g pf pg = pf e refl

abbrev pub is_paused : TaskStatus → Bool
is_paused TaskStatus.paused = true
is_paused _ = false

abbrev pub accepts_transfer_activity : TaskStatus → Bool
accepts_transfer_activity TaskStatus.queued = true
accepts_transfer_activity TaskStatus.running = true
accepts_transfer_activity TaskStatus.paused = true
accepts_transfer_activity _ = false

abbrev pub is_retryable_transfer_state : TaskStatus → Bool
is_retryable_transfer_state TaskStatus.failed = true
is_retryable_transfer_state TaskStatus.canceled = true
is_retryable_transfer_state _ = false

abbrev pub is_removable_transfer_state : TaskStatus → Bool
is_removable_transfer_state TaskStatus.completed = true
is_removable_transfer_state TaskStatus.failed = true
is_removable_transfer_state TaskStatus.canceled = true
is_removable_transfer_state _ = false

abbrev pub is_active : TransferRecord → Bool
is_active r = accepts_transfer_activity r.info.status

abbrev pub is_finished : TransferRecord → Bool
is_finished r = is_removable_transfer_state r.info.status
