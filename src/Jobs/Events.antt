-- ===== src/Jobs/Events.antt =====
-- The state of a job and its replay log: `StoredJobEvent`, `JobState`, `push_event` and
-- `estimate_event_bytes` of src-tauri/src/api_server/jobs.rs.
pub mod Trim
pub mod Laws
use Prim.Native.String.{len}
use hlem_ssh.Prelude.{
  ℕ, ◌+◌, ◌-◌, ◌*◌, ◌||◌, List, [], ◌∷◌, ◌++◌, Option, none, some, String, length, ltb,
  if◌then◌else◌,
}
use hlem_ssh.Prelude.Words.{saturating_add}
use hlem_ssh.Jobs.Data.{Payload, JobEvent, JobSnapshot, summary_of, Env}
use hlem_ssh.Jobs.Tail.{BoundedTextTail}

abbrev pub max_job_events : ℕ
max_job_events = 1024

abbrev pub max_job_event_bytes : ℕ
max_job_event_bytes = 4 * 1024 * 1024

pub record StoredJobEvent : Type 0 where
  pub event : JobEvent
  pub bytes : ℕ

pub record JobState : Type 0 where
  pub snapshot : JobSnapshot
  pub stdout : BoundedTextTail
  pub stderr : BoundedTextTail
  pub events : List StoredJobEvent
  pub event_bytes : ℕ
  pub next_event_id : ℕ
  pub created_at_instant : ℕ
  pub completed_at_instant : Option ℕ

estimate_payload : (Payload → ℕ) → Payload → Option ℕ → ℕ
estimate_payload json_len payload none = json_len payload
estimate_payload json_len payload (some bytes) = bytes

unfoldable pub estimate_event_bytes : Env → JobEvent → Option ℕ → ℕ
unfolding estimate_payload
estimate_event_bytes env event hint =
    saturating_add
      (saturating_add (saturating_add (len event.event) (len event.timestamp))
        (estimate_payload env.json_len event.payload hint))
      64

-- `while len > MAX_JOB_EVENTS || event_bytes > MAX_JOB_EVENT_BYTES { pop_front }`
pub trim : List StoredJobEvent → ℕ → List StoredJobEvent × ℕ
trim [] bytes = ([], bytes)
trim (e ∷ es) bytes =
    let shorter = trim es (bytes - e.bytes) in
    if ltb max_job_events (length (e ∷ es)) || ltb max_job_event_bytes bytes
    then shorter
    else (e ∷ es, bytes)

payload_or_job : Option Payload → JobSnapshot → Payload
payload_or_job none snapshot = Payload.job (summary_of snapshot)
payload_or_job (some payload) snapshot = payload

unfoldable pub push_event :
    Env → JobState → String → Option Payload → Option ℕ → JobState × JobEvent
unfolding trim payload_or_job
push_event env state event_name payload hint =
    let id = state.next_event_id in
    let snapshot : JobSnapshot = record (state.snapshot) { last_event_id = id } in
    let event : JobEvent = record {
      id = id;
      event = event_name;
      timestamp = env.event_time;
      payload = payload_or_job payload snapshot;
    } in
    let bytes = estimate_event_bytes env event hint in
    let (events, event_bytes) =
      trim (state.events ++ record { event = event; bytes = bytes } ∷ [])
        (saturating_add state.event_bytes bytes) in
    (
      record state {
        snapshot = snapshot;
        events = events;
        event_bytes = event_bytes;
        next_event_id = saturating_add state.next_event_id 1;
      },
      event,
    )
