-- ===== src/Jobs/Record/Schedule/Laws.antt =====
-- Cancel requests and ends of a job (src-tauri/src/api_server/jobs.rs) among the sections of other
-- tasks.
use hlem_ssh.Prelude.{
  ℕ, ◌≡◌, refl, sym, subst, ap, ◌∙◌, Bool, true, false, ◌||◌, List, [], ◌∷◌, ◌++◌, Option, arith,
}
use hlem_ssh.Jobs.Data.{JobStatus, JobEvent, Env, is_terminal}
use hlem_ssh.Jobs.Events.{JobState, push_event}
use hlem_ssh.Jobs.Record
use hlem_ssh.Jobs.Record.{
  JobRecord, Outcome, Stream, status_of, guarded, commit, running_section, connecting_section,
  output_section, result_section, error_section, cancel_section, publish_cancel, count_output,
}
use hlem_ssh.Jobs.Record.Methods.{set_queue_ms, set_connection_ms}
use hlem_ssh.Jobs.Record.Schedule.{System, Section, Schedule, act, play, publish_first}

-- Cancellation was asked for, or has happened.
abbrev pub is_doomed : JobStatus → Bool
is_doomed JobStatus.canceling = true
is_doomed JobStatus.canceled = true
is_doomed _ = false

pub guarded_fixed :
    (r next : JobRecord)
    → (is_terminal (status_of r) || is_doomed (status_of r)) ≡ true
    → (guarded r next).0 ≡ r
unfolding guarded
guarded_fixed r next h = ground arith

-- Publishing changes the flag and what was sent, not the state.
pub state-publish_first :
    (es : List JobEvent) (s : System) → (publish_first es s).job.state ≡ s.job.state
unfolding publish_first publish_cancel
state-publish_first [] s = refl
state-publish_first (e ∷ es) s = refl

pub act-doomed :
    (env : Env) (a : Section) (s : System)
    → is_doomed (status_of s.job) ≡ true
    → is_doomed (status_of (act env a s).job) ≡ true
unfolding act running_section connecting_section output_section result_section error_section
act-doomed env Section.cancel s h = unfold cancel_section push_event in ground arith
act-doomed env Section.publish s h =
    subst (λ (t : JobState). is_doomed t.snapshot.status ≡ true)
      (sym (state-publish_first s.pending s)) h
act-doomed env Section.finish_canceled s h =
    unfold Record.finish_canceled push_event in ground arith
act-doomed env (Section.queue_ms value) s h = unfold set_queue_ms in h
act-doomed env (Section.connection_ms value) s h = unfold set_connection_ms in h
act-doomed env _ s h = rw (guarded_fixed s.job _ (ground arith)) h

play-doomed :
    (schedule : Schedule) (s : System)
    → is_doomed (status_of s.job) ≡ true
    → is_doomed (status_of (play schedule s).job) ≡ true
unfolding play
play-doomed [] s h = h
play-doomed ((env, a) ∷ rest) s h = play-doomed rest (act env a s) (act-doomed env a s h)

pub cancel-doomed :
    (env : Env) (s : System)
    → is_terminal (status_of s.job) ≡ false
    → is_doomed (status_of (act env Section.cancel s).job) ≡ true
unfolding act cancel_section push_event
cancel-doomed env s h = ground arith

-- After the section of a cancel request on a job that has not ended, every schedule of sections
-- leaves the job canceling or canceled.
pub cancel_wins :
    (env : Env) (rest : Schedule) (s : System)
    → is_terminal (status_of s.job) ≡ false
    → is_doomed (status_of (play ((env, Section.cancel) ∷ rest) s).job) ≡ true
unfolding play
cancel_wins env rest s h = play-doomed rest (act env Section.cancel s) (cancel-doomed env s h)

-- The state of a job with other queue and connection times.
pub with_times : Option ℕ → Option ℕ → JobState → JobState
with_times queue_ms connection_ms s = record s {
  snapshot = record (s.snapshot) { queue_ms = queue_ms; connection_ms = connection_ms };
}

abbrev Frozen : JobState → JobState → Type 0
Frozen s t = t ≡ with_times t.snapshot.queue_ms t.snapshot.connection_ms s

act-Frozen :
    (env : Env) (a : Section) (s : System)
    → is_terminal (status_of s.job) ≡ true
    → Frozen s.job.state (act env a s).job.state
unfolding act running_section connecting_section output_section result_section error_section
    with_times
act-Frozen env Section.cancel s h = unfold cancel_section in rw (h, cancel_section)
act-Frozen env Section.publish s h = rw (state-publish_first s.pending s)
act-Frozen env Section.finish_canceled s h =
    unfold Record.finish_canceled in rw (h, Record.finish_canceled)
act-Frozen env (Section.queue_ms value) s h = unfold set_queue_ms in refl
act-Frozen env (Section.connection_ms value) s h = unfold set_connection_ms in refl
act-Frozen env _ s h = rw (guarded_fixed s.job _ (ground arith))

-- A job that has ended keeps its state under every schedule of sections, but for the queue and
-- connection times of its snapshot.
pub ended_is_final :
    (schedule : Schedule) (s : System)
    → is_terminal (status_of s.job) ≡ true
    → let t = (play schedule s).job.state in
      t ≡ with_times t.snapshot.queue_ms t.snapshot.connection_ms s.job.state
unfolding play with_times
ended_is_final [] s h = refl
ended_is_final ((env, a) ∷ rest) s h =
    let once = act-Frozen env a s h in
    let still = ap (λ (t : JobState). is_terminal t.snapshot.status) once ∙ h in
    let more = ended_is_final rest (act env a s) still in
    let t = (play rest (act env a s)).job.state in
    more ∙ ap (with_times t.snapshot.queue_ms t.snapshot.connection_ms) once

play-append : (xs ys : Schedule) (s : System) → play (xs ++ ys) s ≡ play ys (play xs s)
unfolding play
play-append [] ys s = refl
play-append ((env, a) ∷ xs) ys s = play-append xs ys (act env a s)

finish_canceled-doomed :
    (env : Env) (s : System)
    → is_doomed (status_of s.job) ≡ true
    → status_of (act env Section.finish_canceled s).job ≡ JobStatus.canceled
unfolding act Record.finish_canceled push_event
finish_canceled-doomed env s h = ground arith

canceled_stays :
    (schedule : Schedule) (s : System)
    → status_of s.job ≡ JobStatus.canceled
    → status_of (play schedule s).job ≡ JobStatus.canceled
canceled_stays schedule s h =
    ap (λ (t : JobState). t.snapshot.status) (ended_is_final schedule s (rw h))
    ∙ (unfold with_times in h)

-- After the section of a cancel request on a job that has not ended, a schedule of sections that
-- has a `finish_canceled` at any later point leaves the job canceled.
pub cancel_completes :
    (env env' : Env) (before rest : Schedule) (s : System)
    → is_terminal (status_of s.job) ≡ false
    → status_of
        (play ((env, Section.cancel) ∷ before ++ (env', Section.finish_canceled) ∷ rest) s).job
      ≡ JobStatus.canceled
cancel_completes env env' before rest s h =
    rw (play-append ((env, Section.cancel) ∷ before) ((env', Section.finish_canceled) ∷ rest) s) (
      unfold play in
      canceled_stays rest
        (act env' Section.finish_canceled (play ((env, Section.cancel) ∷ before) s))
        (finish_canceled-doomed env' _ (cancel_wins env before s h)))
