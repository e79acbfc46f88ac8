-- ===== src/Jobs/Record/Status.antt =====
-- The status that each method of `JobRecord` (src-tauri/src/api_server/jobs.rs) leaves, as a table.
use hlem_ssh.Prelude.{
  ◌≡◌, zero, suc, Option-cases, inl, inr, ◌||◌, [], ◌∷◌, some, String, arith, if◌then◌else◌,
}
use hlem_ssh.Prelude.Text.{Bytes}
use hlem_ssh.Jobs.Data.{JobStatus, ExecResult, Env, is_terminal}
use hlem_ssh.Jobs.Events.{push_event}
use hlem_ssh.Jobs.Record
use hlem_ssh.Jobs.Record.{
  JobRecord, Stream, status_of, is_canceling, running_section, connecting_section, output_section,
  result_section, result_status, error_section, cancel_section, publish_cancel,
}
use hlem_ssh.Jobs.Record.Methods
use hlem_ssh.Jobs.Record.Methods.{after, unless_canceled, publish}

pub data Method : Type 0 where
  mark_running mark_connecting request_cancel finish_canceled : Method
  append_output : Stream → Bytes → Method
  finish_result : ExecResult → Method
  finish_error : String → Method

unfoldable pub call : Env → Method → JobRecord → JobRecord
call env Method.mark_running r = (Methods.mark_running env r).0
call env Method.mark_connecting r = (Methods.mark_connecting env r).0
call env Method.request_cancel r = (Methods.request_cancel env r).0
call env Method.finish_canceled r = Record.finish_canceled env r
call env (Method.append_output kind text) r = Methods.append_output env kind text r
call env (Method.finish_result result) r = Methods.finish_result env result r
call env (Method.finish_error error) r = Methods.finish_error env error r

-- A command that was not stopped by its time limit has completed if it exited with 0.
abbrev pub verdict : ExecResult → JobStatus
verdict result =
    if result.timed_out
    then JobStatus.timed_out
    else elim result.exit_status [ some zero ↦ JobStatus.completed | _ ↦ JobStatus.failed ]

-- What a method asks for, of a job that has not ended and that nobody has canceled.
abbrev pub asked : Method → JobStatus → JobStatus
asked Method.mark_running s = JobStatus.running
asked Method.mark_connecting s = JobStatus.connecting
asked Method.request_cancel s = JobStatus.canceling
asked Method.finish_canceled s = JobStatus.canceled
asked (Method.append_output kind text) s = s
asked (Method.finish_result result) s = verdict result
asked (Method.finish_error error) s = JobStatus.failed

-- A request of cancellation, and output without bytes, leave a canceled job as it is; all else ends it.
abbrev pub when_canceled : Method → JobStatus → JobStatus
when_canceled Method.request_cancel s = JobStatus.canceling
when_canceled (Method.append_output kind []) s = s
when_canceled _ s = JobStatus.canceled

abbrev pub next_status : Method → JobRecord → JobStatus
next_status m r =
    if is_terminal (status_of r)
    then status_of r
    else if r.cancel || is_canceling (status_of r)
    then when_canceled m (status_of r)
    else asked m (status_of r)

result_status-verdict : (result : ExecResult) → (result_status result).0 ≡ verdict result
unfolding result_status
result_status-verdict result = elim (Option-cases result.exit_status) [
  | inl e ↦ rw e (ground arith)
  | inr (zero, e) ↦ rw e (ground arith)
  | inr (suc n, e) ↦ rw e (ground arith)
]

-- For each method, called alone on a job in any state, the job's status afterwards is that of the
-- table: a job that has ended keeps its status; one whose flag is raised or that is canceling becomes
-- canceled, but for a further request and output without bytes; and any other gets the status that
-- the method asks for, which for the end of a command depends on its time limit and its exit code.
pub call-status :
    (env : Env) (m : Method) (r : JobRecord) → status_of (call env m r) ≡ next_status m r
unfolding call Methods.after Methods.unless_canceled Methods.mark_running Methods.mark_connecting
    Methods.append_output Methods.finish_result Methods.finish_error Methods.request_cancel
    Methods.publish Record.finish_canceled running_section connecting_section output_section
    result_section error_section cancel_section publish_cancel push_event
call-status env Method.mark_running r = ground arith
call-status env Method.mark_connecting r = ground arith
call-status env Method.request_cancel r = ground arith
call-status env Method.finish_canceled r = ground arith
call-status env (Method.append_output kind []) r = ground arith
call-status env (Method.append_output kind (b ∷ text)) r = ground arith
call-status env (Method.finish_result result) r = ground (arith, result_status-verdict result)
call-status env (Method.finish_error error) r = ground arith
