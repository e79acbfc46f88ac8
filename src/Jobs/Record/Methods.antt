-- ===== src/Jobs/Record/Methods.antt =====
-- The methods of `JobRecord` as their callers see them, each the composition of a first look at the
-- cancel flag, the section under the lock, and `finish_canceled` where that asks for it; and the
-- readers of a record.
use hlem_ssh.Prelude.{
  ℕ, Bool, true, false, List, [], ◌∷◌, Option, none, some, String, max, ltb, map, keep_if, str_eq,
  ◌&&◌, if◌then◌else◌,
}
use hlem_ssh.Prelude.Text.{Bytes}
use hlem_ssh.Prelude.Utf8.{is_utf8}
use hlem_ssh.Prelude.Words.{clamp_u64}
use hlem_ssh.Jobs.Data.{
  JobSnapshot, JobSummary, JobEvent, Payload, ExecResult, Env, summary_of, is_terminal, is_active,
}
use hlem_ssh.Jobs.Events.{StoredJobEvent, JobState}
use hlem_ssh.Jobs.Record.{
  JobRecord, Outcome, Stream, status_of, finish_canceled, running_section, connecting_section,
  output_section, result_section, error_section, cancel_section, publish_cancel,
}

unfoldable pub after : Env → JobRecord × Outcome → JobRecord × Bool
after env (r, Outcome.finished) = (r, true)
after env (r, Outcome.refused) = (r, false)
after env (r, Outcome.must_cancel) = (finish_canceled env r, false)

unfoldable pub unless_canceled : Env → JobRecord → JobRecord × Outcome → JobRecord × Bool
unless_canceled env r section =
    if r.cancel then (finish_canceled env r, false) else after env section

unfoldable pub mark_running : Env → JobRecord → JobRecord × Bool
unfolding after unless_canceled
mark_running env r = unless_canceled env r (running_section env r)

unfoldable pub mark_connecting : Env → JobRecord → JobRecord × Bool
unfolding after unless_canceled
mark_connecting env r = unless_canceled env r (connecting_section env r)

unfoldable pub append_output : Env → Stream → Bytes → JobRecord → JobRecord
unfolding after
append_output env kind [] r = r
append_output env kind (b ∷ text) r = (after env (output_section env kind (b ∷ text) r)).0

unfoldable pub append_stdout : Env → Bytes → JobRecord → JobRecord
unfolding append_output
append_stdout env text r = append_output env Stream.stdout text r

unfoldable pub append_stderr : Env → Bytes → JobRecord → JobRecord
unfolding append_output
append_stderr env text r = append_output env Stream.stderr text r

unfoldable pub finish_result : Env → ExecResult → JobRecord → JobRecord
unfolding after unless_canceled
finish_result env result r = (unless_canceled env r (result_section env result r)).0

unfoldable pub finish_error : Env → String → JobRecord → JobRecord
unfolding after unless_canceled
finish_error env error r = (unless_canceled env r (error_section env error r)).0

unfoldable pub publish : Option JobEvent → JobRecord → JobRecord × Bool
publish none r = (r, false)
publish (some event) r = (publish_cancel event r, true)

unfoldable pub request_cancel : Env → JobRecord → JobRecord × Bool
unfolding publish
request_cancel env r = let (r', event) = cancel_section env r in publish event r'

unfoldable pub set_connection_ms : ℕ → JobRecord → JobRecord
set_connection_ms value r =
    let s = r.state in
    record r {
      state = record s {
        snapshot = record (s.snapshot) { connection_ms = some (clamp_u64 value) };
      };
    }

unfoldable pub set_queue_ms : ℕ → JobRecord → JobRecord
set_queue_ms value r =
    let s = r.state in
    record r {
      state = record s { snapshot = record (s.snapshot) { queue_ms = some (clamp_u64 value) } };
    }

unfoldable pub is_active_for_session : JobRecord → String → Bool
is_active_for_session r session_id =
    str_eq r.state.snapshot.session_id session_id && is_active (status_of r)

unfoldable pub authorization_state : JobRecord → String × Bool
authorization_state r = (r.state.snapshot.session_id, is_active (status_of r))

-- The receiver of later events starts at the end of what was sent, so it is not stored here.
pub record JobSubscription : Type 0 where
  pub initial : List JobEvent
  pub terminal : Bool
  pub last_event_id : ℕ

unfoldable pub subscribe : JobRecord → ℕ → JobSubscription
subscribe r after_event_id =
    let s = r.state in
    record {
      initial =
          map (λ (e : StoredJobEvent). e.event)
            (keep_if (λ (e : StoredJobEvent). ltb after_event_id e.event.id) s.events);
      terminal = is_terminal s.snapshot.status;
      last_event_id = max s.snapshot.last_event_id after_event_id;
    }

-- `String::from_utf8(bytes)`, or the lossy reading of bytes that are not UTF-8, which is the
-- argument `lossy`.
as_string : (Bytes → Bytes) → Bytes → Bytes
as_string lossy bytes = if is_utf8 bytes then bytes else lossy bytes

unfoldable pub snapshot_from_state : (Bytes → Bytes) → JobState → JobSnapshot
unfolding as_string
snapshot_from_state lossy s = record (s.snapshot) {
  stdout = as_string lossy s.stdout.bytes;
  stderr = as_string lossy s.stderr.bytes;
}

unfoldable pub summary : JobRecord → JobSummary
summary r = summary_of r.state.snapshot

unfoldable pub snapshot_event : Env → (Bytes → Bytes) → JobRecord → JobEvent × Bool
unfolding snapshot_from_state
snapshot_event env lossy r = (
  record {
    id = r.state.snapshot.last_event_id;
    event = "snapshot";
    timestamp = env.event_time;
    payload = Payload.snapshot (snapshot_from_state lossy r.state);
  },
  is_terminal (status_of r),
)
