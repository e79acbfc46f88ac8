-- ===== src/Jobs/Registry.antt =====
-- `JobRegistry` of src-tauri/src/api_server/jobs.rs. Each call is one step on the table: `create`
-- holds the mutation lock, and the states of the jobs are read at one time.
pub mod Bounds
pub mod Prune
pub mod Evict
pub mod Create
pub mod Cancel
pub mod Authorization
pub mod Shutdown
use hlem_ssh.Prelude.{
  ℕ, ◌+◌, ◌*◌, ◌-◌, Bool, true, false, not, ◌&&◌, ◌||◌, List, [], ◌∷◌, ◌++◌, Option, none, some,
  String, length, leb, ltb, map, any, count_if, str_eq, is_some, if◌then◌else◌,
}
use hlem_ssh.Prelude.Text.{Bytes, str_lt}
use hlem_ssh.Prelude.Table
use hlem_ssh.Prelude.Table.{Table, values}
use hlem_ssh.Jobs.Data.{JobSnapshot, JobSummary, Env, is_terminal}
use hlem_ssh.Jobs.Record
use hlem_ssh.Jobs.Record.{JobRecord, status_of, finish_canceled}
use hlem_ssh.Jobs.Record.Methods.{
  request_cancel, is_active_for_session, authorization_state, summary, snapshot_from_state,
}

abbrev pub max_retained_jobs : ℕ
max_retained_jobs = 100

abbrev pub max_active_jobs_per_session : ℕ
max_active_jobs_per_session = 4

-- in milliseconds
abbrev pub completed_job_retention : ℕ
completed_job_retention = 30 * 60 * 1000

pub data JobRegistryError : Type 0 where
  not_found capacity conflict : JobRegistryError

pub data Result {ℓ} (A : Type ℓ) : Type ℓ where
  ok : A → Result A
  err : JobRegistryError → Result A

-- The shared table of jobs, by their ids.
abbrev pub JobRegistry : Type 0
JobRegistry = Table JobRecord

unfoldable pub is_expired : ℕ → JobRecord → Bool
is_expired now r = elim r.state.completed_at_instant [
  | none ↦ false
  | some completed ↦ leb completed_job_retention (now - completed)
]

pub expired_ids : ℕ → JobRegistry → List String
expired_ids now [] = []
expired_ids now ((id, r) ∷ jobs) =
    if is_expired now r then id ∷ expired_ids now jobs else expired_ids now jobs

unfoldable pub prune_expired : ℕ → JobRegistry → JobRegistry
unfolding is_expired expired_ids
prune_expired now jobs = Table.remove_all (expired_ids now jobs) jobs

-- The id and the creation time of the oldest ended job so far.
abbrev pub Candidate : Type 0
Candidate = Option (String × String)

is_older : String → Candidate → Bool
is_older created_at none = true
is_older created_at (some (id, oldest)) = str_lt created_at oldest

-- The body of the loop: jobs that have not ended are passed over.
consider : JobRecord → Candidate → Candidate
unfolding is_older
consider r candidate =
    let s = r.state.snapshot in
    if not (is_terminal s.status)
    then candidate
    else if is_older s.created_at candidate
    then some (s.job_id, s.created_at)
    else candidate

pub oldest_terminal : List JobRecord → Candidate → Candidate
unfolding consider
oldest_terminal [] candidate = candidate
oldest_terminal (r ∷ records) candidate = oldest_terminal records (consider r candidate)

evict : Candidate → JobRegistry → JobRegistry × Bool
evict none jobs = (jobs, false)
evict (some (id, created_at)) jobs = (Table.remove id jobs, is_some (Table.get id jobs))

unfoldable pub evict_oldest_terminal : JobRegistry → JobRegistry × Bool
unfolding evict oldest_terminal
evict_oldest_terminal jobs = evict (oldest_terminal (values jobs) none) jobs

unfoldable pub active_for_session : JobRegistry → String → ℕ
active_for_session jobs session_id =
    count_if (λ r. is_active_for_session r session_id) (values jobs)

-- Room in the table: nothing to do, an evicted job, or none to evict.
unfoldable pub make_room : JobRegistry → JobRegistry × Bool
make_room jobs =
    if leb max_retained_jobs (length (values jobs))
    then evict_oldest_terminal jobs
    else (jobs, true)

-- The jobs that count against the session's limit are those from before the eviction.
unfoldable pub create :
    Env → String → String → String → ℕ → JobRegistry → Result JobRecord × JobRegistry
create env job_id session_id command_preview timeout_ms jobs =
    let pruned = prune_expired env.instant jobs in
    let (roomy, fits) = make_room pruned in
    let r = Record.new env job_id session_id command_preview timeout_ms in
    if not fits
    then (err capacity, roomy)
    else if leb max_active_jobs_per_session (active_for_session pruned session_id)
    then (err capacity, roomy)
    else (ok r, Table.insert job_id r roomy)

unfoldable pub get : Env → String → JobRegistry → Option JobRecord × JobRegistry
get env job_id jobs =
    let pruned = prune_expired env.instant jobs in (Table.get job_id pruned, pruned)

-- The stable sort of the standard library, by an order given as a test for "greater".
insert_sorted : JobSummary → List JobSummary → List JobSummary
insert_sorted x [] = x ∷ []
insert_sorted x (y ∷ ys) =
    if str_lt x.created_at y.created_at then y ∷ insert_sorted x ys else x ∷ y ∷ ys

sort_newest_first : List JobSummary → List JobSummary
unfolding insert_sorted
sort_newest_first [] = []
sort_newest_first (x ∷ xs) = insert_sorted x (sort_newest_first xs)

unfoldable pub list : Env → JobRegistry → List JobSummary × JobRegistry
unfolding sort_newest_first
list env jobs =
    let pruned = prune_expired env.instant jobs in
    (sort_newest_first (map summary (values pruned)), pruned)

unfoldable pub cancel_found :
    Env
    → (Bytes → Bytes)
    → String
    → Option JobRecord
    → JobRegistry
    → Result JobSnapshot × JobRegistry
cancel_found env lossy job_id none jobs = (err not_found, jobs)
cancel_found env lossy job_id (some r) jobs =
    let (r', done) = request_cancel env r in
    if not done
    then (err conflict, jobs)
    else (ok (snapshot_from_state lossy r'.state), Table.insert job_id r' jobs)

unfoldable pub cancel :
    Env → (Bytes → Bytes) → String → JobRegistry → Result JobSnapshot × JobRegistry
cancel env lossy job_id jobs =
    let (found, pruned) = get env job_id jobs in cancel_found env lossy job_id found pruned

attach_found : String → ℕ → Option JobRecord → JobRegistry → JobRegistry × Bool
attach_found job_id handle none jobs = (jobs, true)
attach_found job_id handle (some r) jobs =
    (Table.insert job_id (record r { handle = some handle }) jobs, false)

-- The flag says that the task is aborted, since its job is gone.
unfoldable pub attach_handle : String → ℕ → JobRegistry → JobRegistry × Bool
unfolding attach_found
attach_handle job_id handle jobs = attach_found job_id handle (Table.get job_id jobs) jobs

abbrev pub each : (JobRecord → JobRecord) → JobRegistry → JobRegistry
each f [] = []
each f ((id, r) ∷ jobs) = (id, f r) ∷ each f jobs

unfoldable pub cancel_if_disallowed : Env → List String → JobRecord → JobRecord
cancel_if_disallowed env allowed r =
    let (session_id, active) = authorization_state r in
    if active && not (any (λ s. str_eq s session_id) allowed) then (request_cancel env r).0 else r

unfoldable pub cancel_disallowed : Env → List String → JobRegistry → JobRegistry
unfolding cancel_if_disallowed
cancel_disallowed env allowed jobs = each (cancel_if_disallowed env allowed) jobs

unfoldable pub handle_or_finish : Env → Option ℕ → JobRecord → JobRecord
handle_or_finish env (some handle) r = record r { handle = none }
handle_or_finish env none r = finish_canceled env r

-- The tasks to be awaited, or aborted after the timeout.
unfoldable pub handles : List JobRecord → List ℕ
handles [] = []
handles (r ∷ records) = elim r.handle [
  | none ↦ handles records
  | some handle ↦ handle ∷ handles records
]

unfoldable pub shutdown : Env → JobRegistry → JobRegistry × List ℕ
unfolding handle_or_finish handles
shutdown env jobs =
    let asked = each (λ r. (request_cancel env r).0) jobs in
    (each (λ r. handle_or_finish env r.handle r) asked, handles (values asked))
