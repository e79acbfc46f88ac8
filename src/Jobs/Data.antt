-- ===== src/Jobs/Data.antt =====
-- The data of src-tauri/src/api_server/jobs.rs (statuses, snapshots, events), the result of a
-- command (`ExecResult` of src-tauri/src/remote.rs), and what a call reads from outside.
use hlem_ssh.Prelude.{ℕ, Bool, true, false, not, Option, String}
use hlem_ssh.Prelude.Text.{Bytes}

pub data JobStatus : Type 0 where
  queued connecting running canceling completed failed canceled timed_out : JobStatus

pub JobStatus-discrete : Discrete JobStatus
JobStatus-discrete = hlevel

abbrev pub is_terminal : JobStatus → Bool
is_terminal completed = true
is_terminal failed = true
is_terminal canceled = true
is_terminal timed_out = true
is_terminal _ = false

abbrev pub is_active : JobStatus → Bool
is_active status = not (is_terminal status)

-- `status == JobStatus::Canceling`
abbrev pub is_canceling : JobStatus → Bool
is_canceling canceling = true
is_canceling _ = false

pub record JobSummary : Type 0 where
  pub job_id : String
  pub session_id : String
  pub command_preview : String
  pub status : JobStatus
  pub timeout_ms : ℕ
  pub created_at : String
  pub started_at : Option String
  pub completed_at : Option String
  pub exit_status : Option ℕ
  pub duration_ms : Option ℕ
  pub queue_ms : Option ℕ
  pub connection_ms : Option ℕ
  pub channel_open_ms : Option ℕ
  pub execution_ms : Option ℕ
  pub timed_out : Bool
  pub error : Option String
  pub stdout_bytes : ℕ
  pub stderr_bytes : ℕ
  pub output_truncated : Bool
  pub last_event_id : ℕ

pub record JobSnapshot : Type 0 where
  pub job_id : String
  pub session_id : String
  pub command_preview : String
  pub status : JobStatus
  pub timeout_ms : ℕ
  pub created_at : String
  pub started_at : Option String
  pub completed_at : Option String
  pub exit_status : Option ℕ
  pub duration_ms : Option ℕ
  pub queue_ms : Option ℕ
  pub connection_ms : Option ℕ
  pub channel_open_ms : Option ℕ
  pub execution_ms : Option ℕ
  pub timed_out : Bool
  pub error : Option String
  pub stdout : Bytes
  pub stderr : Bytes
  pub stdout_bytes : ℕ
  pub stderr_bytes : ℕ
  pub output_truncated : Bool
  pub last_event_id : ℕ

-- `impl From<&JobSnapshot> for JobSummary`
unfoldable pub summary_of : JobSnapshot → JobSummary
summary_of s = record {
  job_id = s.job_id;
  session_id = s.session_id;
  command_preview = s.command_preview;
  status = s.status;
  timeout_ms = s.timeout_ms;
  created_at = s.created_at;
  started_at = s.started_at;
  completed_at = s.completed_at;
  exit_status = s.exit_status;
  duration_ms = s.duration_ms;
  queue_ms = s.queue_ms;
  connection_ms = s.connection_ms;
  channel_open_ms = s.channel_open_ms;
  execution_ms = s.execution_ms;
  timed_out = s.timed_out;
  error = s.error;
  stdout_bytes = s.stdout_bytes;
  stderr_bytes = s.stderr_bytes;
  output_truncated = s.output_truncated;
  last_event_id = s.last_event_id;
}

-- The JSON values that events carry: `{"job": summary}`, `{"text": text}`, `{"job": snapshot}`.
pub data Payload : Type 0 where
  job : JobSummary → Payload
  text : Bytes → Payload
  snapshot : JobSnapshot → Payload

pub record JobEvent : Type 0 where
  pub id : ℕ
  pub event : String
  pub timestamp : String
  pub payload : Payload

pub record ExecResult : Type 0 where
  pub stdout : Bytes
  pub stderr : Bytes
  pub stdout_bytes : ℕ
  pub stderr_bytes : ℕ
  pub output_truncated : Bool
  pub exit_status : Option ℕ
  pub duration_ms : ℕ
  pub execution_ms : ℕ
  pub channel_open_ms : ℕ
  pub connection_ms : ℕ
  pub queue_ms : ℕ
  pub timed_out : Bool

-- What one call reads: `Utc::now()` for the fields of the snapshot and, later, for the event,
-- `Instant::now()` in milliseconds, and the length of `serde_json`'s print of a value.
pub record Env : Type 0 where
  pub utc_now : String
  pub event_time : String
  pub instant : ℕ
  pub json_len : Payload → ℕ
