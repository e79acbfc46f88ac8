-- ===== src/Jobs/Record/Schedule/Broadcast.antt =====
-- The order in which a job's events are broadcast (src-tauri/src/api_server/jobs.rs).
use hlem_ssh.Prelude.{
  if_cases, ℕ, suc, ◌+◌, ◌≤◌, ◌<◌, ◌≡◌, refl, false, List, [], ◌∷◌, ◌++◌, Option, none, some,
  String, arith, map, append_assoc,
}
use mathlib.Core.List.{map-append}
use hlem_ssh.Prelude.Text.{Bytes}
use hlem_ssh.Prelude.Words.{u64_max, saturating_add}
use hlem_ssh.Jobs.Data.{JobStatus, JobEvent, Payload, Env, is_terminal, is_canceling}
use hlem_ssh.Jobs.Events.{JobState, push_event}
use hlem_ssh.Jobs.Record
use hlem_ssh.Jobs.Record.{
  JobRecord, Outcome, Stream, status_of, guarded, commit, running_section, connecting_section,
  output_section, result_section, error_section, cancel_section, publish_cancel, count_output,
}
use hlem_ssh.Jobs.Record.Methods.{set_queue_ms, set_connection_ms}
use hlem_ssh.Jobs.Record.Invariant.{guarded_keeps}
use hlem_ssh.Jobs.Record.Schedule.{System, Section, Schedule, act, play}
use hlem_ssh.Jobs.Record.Schedule.Invariant.{next_of, act-room, play-room}

-- The ids ascend from `lo` and stay below `hi`.
abbrev pub Ascending : ℕ → List JobEvent → ℕ → Type 0
Ascending lo [] hi = lo ≤ hi
Ascending lo (e ∷ es) hi = (lo ≤ e.id) × Ascending (suc e.id) es hi

Ascending-append :
    (lo hi : ℕ) (es : List JobEvent) (e : JobEvent)
    → Ascending lo es hi
    → e.id ≡ hi
    → Ascending lo (es ++ e ∷ []) (suc hi)
Ascending-append lo hi [] e h i = omega arith
Ascending-append lo hi (x ∷ es) e h i = (h.0, Ascending-append (suc x.id) hi es e h.1 i)

-- Neither half of a cancel request.
abbrev IsCommitted : Section → Type 0
IsCommitted Section.cancel = ⊥
IsCommitted Section.publish = ⊥
IsCommitted _ = Unit

abbrev pub NoCancel : Schedule → Type 0
NoCancel [] = Unit
NoCancel ((env, a) ∷ rest) = IsCommitted a × NoCancel rest

abbrev InOrder : JobRecord → Type 0
InOrder r = Ascending 0 r.sent r.state.next_event_id

commit-InOrder :
    (env : Env) (r : JobRecord) (s : JobState) (name : String) (payload : Option Payload)
    (hint : Option ℕ)
    → s.next_event_id ≡ r.state.next_event_id
    → r.state.next_event_id < u64_max
    → InOrder r
    → InOrder (commit env r s name payload hint)
unfolding commit push_event
commit-InOrder env r s name payload hint e room h =
    let next : saturating_add s.next_event_id 1 ≡ suc r.state.next_event_id = omega arith in
    rw next (Ascending-append 0 r.state.next_event_id r.sent _ h e)

count_output-next :
    (kind : Stream) (text : Bytes) (s : JobState)
    → (count_output kind text s).next_event_id ≡ s.next_event_id
unfolding count_output
count_output-next Stream.stdout text s = refl
count_output-next Stream.stderr text s = refl

finish_canceled-InOrder :
    (env : Env) (r : JobRecord)
    → r.state.next_event_id < u64_max
    → InOrder r
    → InOrder (Record.finish_canceled env r)
unfolding Record.finish_canceled
finish_canceled-InOrder env r room h =
    if_cases InOrder (is_terminal (status_of r)) r _ (λ _. h)
      (λ _. commit-InOrder env r _ "canceled" none none refl room h)

act-InOrder :
    (env : Env) (a : Section) (s : System)
    → IsCommitted a
    → next_of s.job < u64_max
    → InOrder s.job
    → InOrder (act env a s).job
unfolding act running_section connecting_section output_section result_section error_section
act-InOrder env Section.cancel s ok room h = absurd ok
act-InOrder env Section.publish s ok room h = absurd ok
act-InOrder env Section.finish_canceled s ok room h = finish_canceled-InOrder env s.job room h
act-InOrder env (Section.queue_ms value) s ok room h = unfold set_queue_ms in h
act-InOrder env (Section.connection_ms value) s ok room h = unfold set_connection_ms in h
act-InOrder env (Section.output kind text) s ok room h =
    guarded_keeps InOrder s.job _ h
      λ _ _ _. commit-InOrder env s.job _ _ _ _ (count_output-next kind text s.job.state) room h
act-InOrder env _ s ok room h =
    guarded_keeps InOrder s.job _ h (λ _ _ _. commit-InOrder env s.job _ _ _ _ refl room h)

-- If a schedule has neither half of a cancel request, the next event id after it is below the
-- largest 64-bit number, and the events sent before it have ascending ids below the next one to be
-- given, then so have those sent after it.
pub play-Ascending :
    (schedule : Schedule) (s : System)
    → NoCancel schedule
    → (play schedule s).job.state.next_event_id < u64_max
    → Ascending 0 s.job.sent s.job.state.next_event_id
    → Ascending 0 (play schedule s).job.sent (play schedule s).job.state.next_event_id
unfolding play
play-Ascending [] s ok room h = h
play-Ascending ((env, a) ∷ rest) s ok room h =
    play-Ascending rest (act env a s) ok.1 room
      (act-InOrder env a s ok.0 (act-room env a s (play-room rest (act env a s) room)) h)

abbrev pub sent_ids : JobRecord → List ℕ
sent_ids r = map (λ (e : JobEvent). e.id) r.sent

cancel_section_active :
    (env : Env) (r : JobRecord)
    → is_terminal (status_of r) ≡ false
    → is_canceling (status_of r) ≡ false
    → let s = r.state in
      let p =
        push_event env
          (record s { snapshot = record (s.snapshot) { status = JobStatus.canceling } })
          "canceling"
          none
          none in
      cancel_section env r ≡ (record r { state = p.0 }, some p.1)
unfolding cancel_section
cancel_section_active env r active asked = rw (active, asked, cancel_section)

-- If a job has neither ended nor is being canceled, its next event id is below the largest 64-bit
-- number, and `finish_canceled` runs between the two halves of a cancel request, then the event of
-- the end is sent before the event of the request, whose id is smaller.
pub cancel_event_overtaken :
    (env env' env'' : Env) (r : JobRecord)
    → is_terminal (status_of r) ≡ false
    → is_canceling (status_of r) ≡ false
    → r.state.next_event_id < u64_max
    → let n = r.state.next_event_id in
      sent_ids
        (play
          ((env, Section.cancel) ∷ (env', Section.finish_canceled) ∷ (env'', Section.publish) ∷ [])
          (record { job = r; pending = [] })).job
      ≡ sent_ids r ++ (n + 1) ∷ n ∷ []
unfolding play act Record.finish_canceled push_event publish_cancel
cancel_event_overtaken env env' env'' r active asked room =
    let next : saturating_add r.state.next_event_id 1 ≡ r.state.next_event_id + 1 = omega arith in
    rw (cancel_section_active env r active asked) (simp (map-append, append_assoc) (rw next))
