-- ===== src/Jobs/Examples/Tables.antt =====
-- The theorems on the registry, at a table of a queued job and one that has ended.
use hlem_ssh.Prelude.{
  ℕ, ◌≡◌, ◌≢◌, ◌≤◌, ◌⊎◌, refl, true, false, [], none, some, arith, String, eq_iff, length, any,
  ◌==◌,
}
use hlem_ssh.Prelude.Table
use hlem_ssh.Jobs.Data.{is_terminal}
use hlem_ssh.Jobs.Events.{push_event}
use hlem_ssh.Jobs.Record
use hlem_ssh.Jobs.Record.{JobRecord, status_of, finish_canceled, cancel_section, publish_cancel}
use hlem_ssh.Jobs.Record.Methods.{
  is_active_for_session, authorization_state, request_cancel, publish,
}
use hlem_ssh.Jobs.Registry.{
  max_retained_jobs, max_active_jobs_per_session, active_for_session, create, cancel_disallowed,
  shutdown, cancel_if_disallowed, handle_or_finish,
}
use hlem_ssh.Jobs.Registry.Bounds.{length-create, active_for_session-create}
use hlem_ssh.Jobs.Registry.Prune.{Keyed}
use hlem_ssh.Jobs.Registry.Create.{create-keeps_active}
use hlem_ssh.Jobs.Registry.Cancel.{is_stopping}
use hlem_ssh.Jobs.Registry.Authorization.{is_allowed, cancel_disallowed-stops}
use hlem_ssh.Jobs.Registry.Shutdown.{shutdown-stops}
use hlem_ssh.Jobs.Examples.{at, queued_job, ended_job, jobs}

jobs-Keyed : Keyed jobs
unfolding Record.new finish_canceled push_event Table.get
jobs-Keyed = (refl, refl, (refl, refl, tt))

finds_queued : Table.get "j1" jobs ≡ some queued_job
unfolding Table.get
finds_queued = refl

finds_ended : Table.get "j2" jobs ≡ some ended_job
unfolding Table.get
finds_ended = refl

queued_is_active : is_terminal (status_of queued_job) ≡ false
unfolding Record.new
queued_is_active = refl

ended_is_terminal : is_terminal (status_of ended_job) ≡ true
unfolding Record.new finish_canceled push_event
ended_is_terminal = refl

few_active : active_for_session jobs "s1" ≤ max_active_jobs_per_session
unfolding active_for_session is_active_for_session Record.new finish_canceled push_event
few_active = omega arith

j1-not-j2 : ◌≢◌ {A = String} "j1" "j2"
j1-not-j2 = ground (arith, eq_iff "j1" "j2")

j3-not-j1 : ◌≢◌ {A = String} "j3" "j1"
j3-not-j1 = ground (arith, eq_iff "j3" "j1")

length-create_example : length (create (at 9) "j3" "s1" "pwd" 1000 jobs).1 ≤ max_retained_jobs
length-create_example = length-create (at 9) "j3" "s1" "pwd" 1000 jobs (omega arith)

active_for_session-create_example :
    active_for_session (create (at 9) "j3" "s1" "pwd" 1000 jobs).1 "s1"
    ≤ max_active_jobs_per_session
active_for_session-create_example =
    active_for_session-create (at 9) "j3" "s1" "pwd" "s1" 1000 jobs few_active

create-keeps_active_example :
    Table.get "j1" (create (at 9) "j3" "s1" "pwd" 1000 jobs).1 ≡ some queued_job
create-keeps_active_example =
    create-keeps_active (at 9) "j3" "s1" "pwd" 1000 jobs "j1" queued_job jobs-Keyed finds_queued
      queued_is_active (unfold Record.new in refl) j3-not-j1

abbrev canceling_job : JobRecord
canceling_job = (request_cancel (at 9) queued_job).0

finds_canceling : Table.get "j1" (cancel_disallowed (at 9) [] jobs) ≡ some canceling_job
unfolding Table.get cancel_disallowed cancel_if_disallowed authorization_state Record.new
finds_canceling = refl

cancel_disallowed-stops_example :
    (is_allowed [] canceling_job ≡ true) ⊎ (is_stopping (status_of canceling_job) ≡ true)
cancel_disallowed-stops_example =
    cancel_disallowed-stops (at 9) [] jobs "j1" canceling_job finds_canceling

abbrev stopped_job : JobRecord
stopped_job = finish_canceled (at 9) canceling_job

finds_stopped : Table.get "j1" (shutdown (at 9) jobs).0 ≡ some stopped_job
unfolding Table.get shutdown handle_or_finish Record.new request_cancel cancel_section publish
    publish_cancel push_event
finds_stopped = refl

shutdown-stops_example :
    (stopped_job.handle ≡ none)
    × (is_stopping (status_of stopped_job) ≡ true)
    × ((is_terminal (status_of stopped_job) ≡ true)
        ⊎ ((q : JobRecord) × (n : ℕ) × (Table.get "j1" jobs ≡ some q)
            × (q.handle ≡ some n)
            × (any (λ x. x == n) (shutdown (at 9) jobs).1 ≡ true)))
shutdown-stops_example = shutdown-stops (at 9) jobs "j1" stopped_job finds_stopped
