-- ===== src/Jobs/Examples.antt =====
-- Jobs and tables to try the theorems on.
pub mod Life
pub mod Tables
use hlem_ssh.Prelude.{ℕ, Bool, true, false, List, [], ◌∷◌, Option, none, some, String}
use hlem_ssh.Jobs.Data.{ExecResult, Env}
use hlem_ssh.Jobs.Record
use hlem_ssh.Jobs.Record.{JobRecord, Stream}
use hlem_ssh.Jobs.Record.Schedule.{Section, Schedule}
use hlem_ssh.Jobs.Registry.{JobRegistry}

abbrev pub at : ℕ → Env
at instant = record {
  utc_now = "2026-01-01T00:00:00Z";
  event_time = "2026-01-01T00:00:01Z";
  instant = instant;
  json_len = λ payload. 300;
}

abbrev pub queued_job : JobRecord
queued_job = Record.new (at 0) "j1" "s1" "ls" 1000

abbrev pub success : ExecResult
success = record {
  stdout = 104 ∷ 105 ∷ [];
  stderr = [];
  stdout_bytes = 2;
  stderr_bytes = 0;
  output_truncated = false;
  exit_status = some 0;
  duration_ms = 7;
  execution_ms = 3;
  channel_open_ms = 1;
  connection_ms = 2;
  queue_ms = 1;
  timed_out = false;
}

-- A run to its end, with output.
abbrev pub whole_run : Schedule
whole_run =
    (at 1, Section.connect)
    ∷ (at 2, Section.run)
    ∷ (at 3, Section.output Stream.stdout (104 ∷ 105 ∷ []))
    ∷ (at 4, Section.result success)
    ∷ []

abbrev pub ended_job : JobRecord
ended_job = Record.finish_canceled (at 5) (Record.new (at 1) "j2" "s2" "ls" 1000)

abbrev pub jobs : JobRegistry
jobs = ("j1", queued_job) ∷ ("j2", ended_job) ∷ []
