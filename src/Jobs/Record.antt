-- ===== src/Jobs/Record.antt =====
-- `JobRecord` of src-tauri/src/api_server/jobs.rs: the life of one job. A method is a function to
-- the new record. Where a method reads the cancel flag before it takes the lock, what it does under
-- the lock is a function of its own (`.._section`), so that schedules can interleave those.
pub mod Methods
pub mod Status
pub mod Invariant
pub mod Schedule
pub mod Replay
use hlem_ssh.Prelude.{
  ℕ, ◌+◌, ◌*◌, ◌-◌, Bool, true, false, ◌||◌, List, [], ◌∷◌, ◌++◌, Option, none, some, String,
  length, leb, ltb, ◌==◌, max, map, keep_if, str_eq, ◌&&◌, if◌then◌else◌, is_none,
}
use hlem_ssh.Prelude.Text.{Bytes}
use hlem_ssh.Prelude.Words.{saturating_add, clamp_u64}
use hlem_ssh.Jobs.Data.{
  JobStatus, JobSnapshot, JobSummary, JobEvent, Payload, ExecResult, Env, summary_of, is_terminal,
  is_active, is_canceling,
}
use hlem_ssh.Jobs.Tail
use hlem_ssh.Jobs.Events.{StoredJobEvent, JobState, push_event, estimate_event_bytes}

abbrev pub max_job_output_bytes : ℕ
max_job_output_bytes = 1024 * 1024

-- `sent` are the events handed to `event_tx`, in order; `cancel` is the value of `cancel_tx`;
-- `handle` is a number for the task, if one is attached.
pub record JobRecord : Type 0 where
  pub state : JobState
  pub sent : List JobEvent
  pub cancel : Bool
  pub handle : Option ℕ

-- `job_id` is the text made of a fresh UUID.
unfoldable pub new : Env → String → String → String → ℕ → JobRecord
new env job_id session_id command_preview timeout_ms =
    let snapshot : JobSnapshot = record {
      job_id = job_id;
      session_id = session_id;
      command_preview = command_preview;
      status = JobStatus.queued;
      timeout_ms = timeout_ms;
      created_at = env.utc_now;
      started_at = none;
      completed_at = none;
      exit_status = none;
      duration_ms = none;
      queue_ms = none;
      connection_ms = none;
      channel_open_ms = none;
      execution_ms = none;
      timed_out = false;
      error = none;
      stdout = [];
      stderr = [];
      stdout_bytes = 0;
      stderr_bytes = 0;
      output_truncated = false;
      last_event_id = 1;
    } in
    let initial : JobEvent = record {
      id = 1;
      event = "queued";
      timestamp = env.utc_now;
      payload = Payload.job (summary_of snapshot);
    } in
    let bytes = estimate_event_bytes env initial none in
    record {
      state = record {
        snapshot = snapshot;
        stdout = Tail.new max_job_output_bytes;
        stderr = Tail.new max_job_output_bytes;
        events = record { event = initial; bytes = bytes } ∷ [];
        event_bytes = bytes;
        next_event_id = 2;
        created_at_instant = env.instant;
        completed_at_instant = none;
      };
      sent = [];
      cancel = false;
      handle = none;
    }

-- `push_event(..)`, then `event_tx.send(event)`, with the lock held.
pub commit : Env → JobRecord → JobState → String → Option Payload → Option ℕ → JobRecord
commit env r state name payload hint =
    let (state', event) = push_event env state name payload hint in
    record r { state = state'; sent = r.sent ++ event ∷ [] }

abbrev pub status_of : JobRecord → JobStatus
status_of r = r.state.snapshot.status

-- `duration_ms`, where it is not set yet, becomes the time since the creation.
duration_or_elapsed : Option ℕ → ℕ → ℕ → Option ℕ
duration_or_elapsed none created now = some (clamp_u64 (now - created))
duration_or_elapsed (some d) created now = some d

unfoldable pub finish_canceled : Env → JobRecord → JobRecord
unfolding commit duration_or_elapsed
finish_canceled env r =
    let s = r.state in
    if is_terminal (status_of r)
    then r
    else commit env r
        (record s {
          snapshot = record (s.snapshot) {
            status = JobStatus.canceled;
            duration_ms =
                duration_or_elapsed s.snapshot.duration_ms s.created_at_instant env.instant;
            completed_at = some env.utc_now;
          };
          completed_at_instant = some env.instant;
        })
        "canceled" none none

-- What a section asks of its caller: nothing more, or `finish_canceled` once the lock is dropped.
pub data Outcome : Type 0 where
  finished refused must_cancel : Outcome

-- The checks that every section makes under the lock.
pub guarded : JobRecord → JobRecord → JobRecord × Outcome
guarded r next =
    if r.cancel || is_canceling (status_of r)
    then (r, Outcome.must_cancel)
    else if is_terminal (status_of r)
    then (r, Outcome.refused)
    else (next, Outcome.finished)

started_or_now : Option String → String → Option String
started_or_now none now = some now
started_or_now (some t) now = some t

unfoldable pub running_section : Env → JobRecord → JobRecord × Outcome
unfolding commit guarded started_or_now
running_section env r =
    let s = r.state in
    guarded r (
      commit env r
        (record s {
          snapshot = record (s.snapshot) {
            status = JobStatus.running;
            started_at = started_or_now s.snapshot.started_at env.utc_now;
          };
        })
        "running" none none)

unfoldable pub connecting_section : Env → JobRecord → JobRecord × Outcome
unfolding commit guarded
connecting_section env r =
    let s = r.state in
    guarded r (
      commit env r
        (record s {
          snapshot = record (s.snapshot) {
            status = JobStatus.connecting;
            started_at = some env.utc_now;
          };
        })
        "connecting" none none)

pub data Stream : Type 0 where
  stdout stderr : Stream

stream_name : Stream → String
stream_name Stream.stdout = "stdout"
stream_name Stream.stderr = "stderr"

-- The counters saturate at the bound of `u64`.
pub count_output : Stream → Bytes → JobState → JobState
count_output Stream.stdout text s =
    let (tail, truncated) = Tail.push s.stdout text in
    record s {
      snapshot = record (s.snapshot) {
        stdout_bytes = saturating_add s.snapshot.stdout_bytes (length text);
        output_truncated = s.snapshot.output_truncated || truncated;
      };
      stdout = tail;
    }
count_output Stream.stderr text s =
    let (tail, truncated) = Tail.push s.stderr text in
    record s {
      snapshot = record (s.snapshot) {
        stderr_bytes = saturating_add s.snapshot.stderr_bytes (length text);
        output_truncated = s.snapshot.output_truncated || truncated;
      };
      stderr = tail;
    }

saturating_mul_7 : ℕ → ℕ
saturating_mul_7 n = clamp_u64 (n * 7)

unfoldable pub output_section : Env → Stream → Bytes → JobRecord → JobRecord × Outcome
unfolding commit guarded count_output stream_name saturating_mul_7
output_section env kind text r = guarded r (
    commit env r (count_output kind text r.state) (stream_name kind) (some (Payload.text text))
      (some (saturating_add (saturating_mul_7 (length text)) 128)))

-- The status and the event of a command that ran to its end.
unfoldable pub result_status : ExecResult → JobStatus × String
result_status result =
    if result.timed_out then (JobStatus.timed_out, "timedOut") else elim result.exit_status [
      | none ↦ (JobStatus.failed, "failed")
      | some code ↦
          if code == 0 then (JobStatus.completed, "completed") else (JobStatus.failed, "failed")
    ]

unfoldable pub result_section : Env → ExecResult → JobRecord → JobRecord × Outcome
unfolding commit guarded result_status
result_section env result r =
    let s = r.state in
    let (status, event_name) = result_status result in
    guarded r (
      commit env r
        (record s {
          snapshot = record (s.snapshot) {
            stdout_bytes = result.stdout_bytes;
            stderr_bytes = result.stderr_bytes;
            output_truncated = s.snapshot.output_truncated || result.output_truncated;
            exit_status = result.exit_status;
            duration_ms = some (clamp_u64 result.duration_ms);
            queue_ms = some (clamp_u64 result.queue_ms);
            connection_ms = some (clamp_u64 result.connection_ms);
            channel_open_ms = some (clamp_u64 result.channel_open_ms);
            execution_ms = some (clamp_u64 result.execution_ms);
            timed_out = result.timed_out;
            completed_at = some env.utc_now;
            status = status;
          };
          completed_at_instant = some env.instant;
        })
        event_name none none)

unfoldable pub error_section : Env → String → JobRecord → JobRecord × Outcome
unfolding commit guarded duration_or_elapsed
error_section env error r =
    let s = r.state in
    guarded r (
      commit env r
        (record s {
          snapshot = record (s.snapshot) {
            status = JobStatus.failed;
            error = some error;
            duration_ms =
                duration_or_elapsed s.snapshot.duration_ms s.created_at_instant env.instant;
            completed_at = some env.utc_now;
          };
          completed_at_instant = some env.instant;
        })
        "failed" none none)

-- `request_cancel` under the lock: the event is broadcast later, with the lock dropped.
unfoldable pub cancel_section : Env → JobRecord → JobRecord × Option JobEvent
cancel_section env r =
    let s = r.state in
    if is_terminal (status_of r) || is_canceling (status_of r)
    then (r, none)
    else let (state', event) =
        push_event env
          (record s { snapshot = record (s.snapshot) { status = JobStatus.canceling } }) "canceling"
          none none in
      (record r { state = state' }, some event)

-- The rest of `request_cancel`: the flag is raised, then the event is sent.
unfoldable pub publish_cancel : JobEvent → JobRecord → JobRecord
publish_cancel event r = record r { cancel = true; sent = r.sent ++ event ∷ [] }
