-- ===== src/Jobs/Examples/Life.antt =====
-- The theorems on one job, at a run of a command.
use hlem_ssh.Prelude.{
  ◌≡◌, ◌<◌, ◌+◌, ◌-◌, refl, true, false, [], ◌∷◌, ◌++◌, map, max, length, none, arith,
}
use hlem_ssh.Prelude.Text.{Bytes}
use hlem_ssh.Prelude.Words.{u64_max}
use hlem_ssh.Prelude.Utf8.{is_utf8, skip_continuations, is_continuation}
use hlem_ssh.Jobs.Data.{JobStatus, is_terminal}
use hlem_ssh.Jobs.Tail.{BoundedTextTail, push}
use hlem_ssh.Jobs.Tail.Laws.{last_bytes, push-last_bytes}
use hlem_ssh.Jobs.Events.{push_event, estimate_event_bytes}
use hlem_ssh.Jobs.Events.Laws.{LogValid, push_event-LogValid}
use hlem_ssh.Jobs.Record
use hlem_ssh.Jobs.Record.{status_of, finish_canceled}
use hlem_ssh.Jobs.Record.Invariant.{StateValid, new-StateValid}
use hlem_ssh.Jobs.Record.Methods.{subscribe}
use hlem_ssh.Jobs.Record.Replay.{interval, subscribe-interval}
use hlem_ssh.Jobs.Record.Schedule.{Section, play, act}
use hlem_ssh.Jobs.Record.Schedule.Laws.{
  is_doomed, with_times, cancel_wins, ended_is_final, cancel_completes,
}
use hlem_ssh.Jobs.Record.Schedule.Invariant.{play-StateValid}
use hlem_ssh.Jobs.Record.Schedule.{quiet}
use hlem_ssh.Jobs.Record.Status.{Method, call, next_status, call-status}
use hlem_ssh.Jobs.Record.Schedule.Broadcast.{sent_ids, cancel_event_overtaken}
use hlem_ssh.Jobs.Examples.{at, queued_job, ended_job, whole_run}

queued_is_active : is_terminal (status_of queued_job) ≡ false
unfolding Record.new
queued_is_active = refl

ended_is_terminal : is_terminal (status_of ended_job) ≡ true
unfolding Record.new finish_canceled push_event
ended_is_terminal = refl

queued-StateValid : StateValid queued_job.state
queued-StateValid =
    new-StateValid (at 0) "j1" "s1" "ls" 1000
      (unfold Record.new estimate_event_bytes in omega arith)

cancel_wins_example :
    is_doomed (status_of (play ((at 1, Section.cancel) ∷ whole_run) (quiet queued_job)).job) ≡ true
cancel_wins_example = cancel_wins (at 1) whole_run (quiet queued_job) queued_is_active

cancel_completes_example :
    status_of
      (play
        ((at 1, Section.cancel) ∷ whole_run ++ (at 9, Section.finish_canceled) ∷ whole_run)
        (quiet queued_job)).job
    ≡ JobStatus.canceled
cancel_completes_example =
    cancel_completes (at 1) (at 9) whole_run whole_run (quiet queued_job) queued_is_active

ended_is_final_example :
    let t = (play whole_run (quiet ended_job)).job.state in
    t ≡ with_times t.snapshot.queue_ms t.snapshot.connection_ms ended_job.state
ended_is_final_example = ended_is_final whole_run (quiet ended_job) ended_is_terminal

run_next : (play whole_run (quiet queued_job)).job.state.next_event_id < u64_max
unfolding play act Record.new Record.connecting_section Record.running_section Record.output_section
    Record.result_section push_event
run_next = omega arith

play-StateValid_example : StateValid (play whole_run (quiet queued_job)).job.state
play-StateValid_example =
    play-StateValid whole_run (quiet queued_job) run_next
      (tt, (tt, ((unfold is_utf8 in refl), (tt, tt)))) queued-StateValid

call-status_example :
    status_of (call (at 3) Method.request_cancel queued_job)
    ≡ next_status Method.request_cancel queued_job
call-status_example = call-status (at 3) Method.request_cancel queued_job

cancel_event_overtaken_example :
    sent_ids
      (play
        ((at 1, Section.cancel) ∷ (at 2, Section.finish_canceled) ∷ (at 3, Section.publish) ∷ [])
        (quiet queued_job)).job
    ≡ sent_ids queued_job
      ++ (queued_job.state.next_event_id + 1) ∷ queued_job.state.next_event_id ∷ []
cancel_event_overtaken_example =
    cancel_event_overtaken (at 1) (at 2) (at 3) queued_job queued_is_active
      (unfold Record.new in refl) (unfold Record.new in omega arith)

subscribe-interval_example :
    let next = queued_job.state.next_event_id in
    let first = max (next - length queued_job.state.events) (0 + 1) in
    map (λ e. e.id) (subscribe queued_job 0).initial ≡ interval first (next - first)
subscribe-interval_example = subscribe-interval queued_job 0 queued-StateValid

push_event-LogValid_example : LogValid (push_event (at 1) queued_job.state "running" none none).0
push_event-LogValid_example =
    push_event-LogValid (at 1) queued_job.state "running" none none
      (unfold Record.new in omega arith) queued-StateValid.log

-- A tail of four bytes that ends in a character of three bytes, and a text of as many.
abbrev small_tail : BoundedTextTail
small_tail = record { bytes = 97 ∷ 0xE4 ∷ 0xBD ∷ 0xA0 ∷ []; max_bytes = 4 }

abbrev more_text : Bytes
more_text = 0xE5 ∷ 0xA5 ∷ 0xBD ∷ []

small_is_utf8 : is_utf8 small_tail.bytes ≡ true
unfolding is_utf8
small_is_utf8 = refl

more_is_utf8 : is_utf8 more_text ≡ true
unfolding is_utf8
more_is_utf8 = refl

push-last_bytes_example : (push small_tail more_text).0.bytes ≡ last_bytes small_tail more_text
push-last_bytes_example = push-last_bytes small_tail more_text small_is_utf8 more_is_utf8

push_cuts : (push small_tail more_text).0.bytes ≡ more_text
unfolding push skip_continuations is_continuation
push_cuts = refl
