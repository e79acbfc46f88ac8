-- ===== src/Jobs/Record/Schedule.antt =====
-- The methods of one job, called from several tasks: a schedule is a list of sections, each atomic
-- since it holds the lock. Between raising the status and the flag, `request_cancel` has an event
-- that is not sent yet; `pending` holds such events.
pub mod Laws
pub mod Invariant
pub mod Broadcast
use hlem_ssh.Prelude.{ℕ, List, [], ◌∷◌, ◌++◌, Option, none, some, String}
use hlem_ssh.Prelude.Text.{Bytes}
use hlem_ssh.Jobs.Data.{JobEvent, ExecResult, Env}
use hlem_ssh.Jobs.Record
use hlem_ssh.Jobs.Record.{
  JobRecord, Stream, running_section, connecting_section, output_section, result_section,
  error_section, cancel_section, publish_cancel,
}
use hlem_ssh.Jobs.Record.Methods.{set_connection_ms, set_queue_ms}

pub record System : Type 0 where
  pub job : JobRecord
  pub pending : List JobEvent

pub data Section : Type 0 where
  run connect cancel publish finish_canceled : Section
  output : Stream → Bytes → Section
  result : ExecResult → Section
  error : String → Section
  queue_ms connection_ms : ℕ → Section

pub add_pending : Option JobEvent → List JobEvent → List JobEvent
add_pending none es = es
add_pending (some e) es = es ++ e ∷ []

pub publish_first : List JobEvent → System → System
publish_first [] s = s
publish_first (e ∷ es) s = record { job = publish_cancel e s.job; pending = es }

unfoldable pub act : Env → Section → System → System
unfolding add_pending publish_first
act env Section.run s = record s { job = (running_section env s.job).0 }
act env Section.connect s = record s { job = (connecting_section env s.job).0 }
act env Section.cancel s =
    let (job, event) = cancel_section env s.job in
    record { job = job; pending = add_pending event s.pending }
act env Section.publish s = publish_first s.pending s
act env Section.finish_canceled s = record s { job = Record.finish_canceled env s.job }
act env (Section.output kind text) s = record s { job = (output_section env kind text s.job).0 }
act env (Section.result r) s = record s { job = (result_section env r s.job).0 }
act env (Section.error e) s = record s { job = (error_section env e s.job).0 }
act env (Section.queue_ms value) s = record s { job = set_queue_ms value s.job }
act env (Section.connection_ms value) s = record s { job = set_connection_ms value s.job }

abbrev pub Schedule : Type 0
Schedule = List (Env × Section)

unfoldable pub play : Schedule → System → System
play [] s = s
play ((env, a) ∷ rest) s = play rest (act env a s)

-- A job with no cancel event waiting.
abbrev pub quiet : JobRecord → System
quiet r = record { job = r; pending = [] }
