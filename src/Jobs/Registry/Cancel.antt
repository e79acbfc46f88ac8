-- ===== src/Jobs/Registry/Cancel.antt =====
-- `request_cancel` and the cancel call of src-tauri/src/api_server/jobs.rs.
use hlem_ssh.Prelude.{
  ◌≡◌, ◌≢◌, refl, ◌∙◌, ◌⊎◌, inl, inr, Bool, true, false, not, ◌||◌, [], ◌∷◌, arith, String, Option,
  none, some, str_eq, eq_iff, Bool-cases, if_cases,
}
use hlem_ssh.Prelude.Text.{Bytes}
use hlem_ssh.Prelude.Table
use hlem_ssh.Prelude.Table.{get-insert, values}
use hlem_ssh.Jobs.Data.{Env, JobSnapshot, JobStatus, is_terminal, is_canceling}
use hlem_ssh.Jobs.Events.{push_event}
use hlem_ssh.Jobs.Record.{JobRecord, status_of, cancel_section, publish_cancel}
use hlem_ssh.Jobs.Record.Methods.{request_cancel, snapshot_from_state}
use hlem_ssh.Jobs.Registry
use hlem_ssh.Jobs.Registry.{
  JobRegistry, Result, JobRegistryError, cancel_found, cancel, each, cancel_disallowed, shutdown,
  prune_expired, handle_or_finish, handles, cancel_if_disallowed,
}

or_false : (a b : Bool) → (a || b) ≡ false → a ≡ false
or_false a b h = ground arith

-- Ended, or on the way to it.
abbrev pub is_stopping : JobStatus → Bool
is_stopping status = is_terminal status || is_canceling status

-- What `request_cancel` does: nothing to a job that has ended or is being canceled, and otherwise
-- the job is being canceled, with its flag raised.
pub request_cancel_lem :
    (env : Env) (r : JobRecord)
    → ((is_terminal (status_of r) || is_canceling (status_of r)) ≡ true)
        × (request_cancel env r ≡ (r, false))
      ⊎ ((is_terminal (status_of r) ≡ false)
          × (status_of (request_cancel env r).0 ≡ JobStatus.canceling)
          × ((request_cancel env r).0.cancel ≡ true)
          × ((request_cancel env r).1 ≡ true)
          × ((request_cancel env r).0.handle ≡ r.handle))
unfolding request_cancel cancel_section publish_cancel push_event
request_cancel_lem env r =
    elim (Bool-cases (is_terminal (status_of r) || is_canceling (status_of r))) [
      | inl e ↦ inl (e, rw (e, cancel_section))
      | inr e ↦ inr (
        or_false _ _ e,
        rw (e, cancel_section),
        rw (e, cancel_section),
        rw (e, cancel_section),
        rw (e, cancel_section),
      )
    ]

pub get-each :
    (f : JobRecord → JobRecord) (id : String) (jobs : JobRegistry) {r : JobRecord}
    → Table.get id (each f jobs) ≡ some r
    → (q : JobRecord) × (Table.get id jobs ≡ some q) × (r ≡ f q)
unfolding Table.get
get-each f id [] h = cc
get-each f id ((j, q) ∷ jobs) {r} h = elim (Bool-cases (str_eq j id)) [
  | inl e ↦ let found : some (f q) ≡ some r = rw e at h in (q, rw e, cc found)
  | inr e ↦ let (p, g, same) = get-each f id jobs (rw e at h) in (p, rw e g, same)
]

pub stopping-request_cancel :
    (env : Env) (r : JobRecord) → is_stopping (status_of (request_cancel env r).0) ≡ true
stopping-request_cancel env r = elim (request_cancel_lem env r) [
  | inl (e, same) ↦ rw same e
  | inr (nt, st, flag, done, h) ↦ rw st
]

pub handle-request_cancel : (env : Env) (r : JobRecord) → (request_cancel env r).0.handle ≡ r.handle
handle-request_cancel env r = elim (request_cancel_lem env r) [
  | inl (e, same) ↦ rw same
  | inr (nt, st, flag, done, h) ↦ h
]

found_others :
    (env : Env) (lossy : Bytes → Bytes) (id other : String) (found : Option JobRecord)
    (jobs : JobRegistry)
    → id ≢ other
    → Table.get other (cancel_found env lossy id found jobs).1 ≡ Table.get other jobs
unfolding cancel_found
found_others env lossy id other none jobs ne = refl
found_others env lossy id other (some r) jobs ne =
    if_cases (λ (p : Result JobSnapshot × JobRegistry). Table.get other p.1 ≡ Table.get other jobs)
      (not (request_cancel env r).1) _ _ (λ _. refl)
      (λ _. get-insert id other (request_cancel env r).0 jobs ∙ ground (arith, eq_iff id other))

-- A cancel call on one job leaves the entry of another id as pruning leaves it.
pub cancel-others :
    (env : Env) (lossy : Bytes → Bytes) (id other : String) (jobs : JobRegistry)
    → id ≢ other
    → Table.get other (cancel env lossy id jobs).1
      ≡ Table.get other (prune_expired env.instant jobs)
unfolding cancel Registry.get
cancel-others env lossy id other jobs ne =
    found_others env lossy id other (Table.get id (prune_expired env.instant jobs)) _ ne

abbrev pub Answers :
    Env
    → (Bytes → Bytes)
    → String
    → Option JobRecord
    → JobRegistry
    → Result JobSnapshot × JobRegistry
    → Type 0
Answers env lossy id found jobs answer =
    ((found ≡ none) × (answer ≡ (Result.err JobRegistryError.not_found, jobs)))
    ⊎ ((r : JobRecord) × (found ≡ some r)
        × (((is_stopping (status_of r) ≡ true)
              × (answer ≡ (Result.err JobRegistryError.conflict, jobs)))
            ⊎ ((is_terminal (status_of r) ≡ false)
                × (q : JobRecord) × (Table.get id answer.1 ≡ some q)
                × (status_of q ≡ JobStatus.canceling)
                × (q.cancel ≡ true)
                × (answer.0 ≡ Result.ok (snapshot_from_state lossy q.state)))))

found-Answers :
    (env : Env) (lossy : Bytes → Bytes) (id : String) (found : Option JobRecord)
    (jobs : JobRegistry)
    → Answers env lossy id found jobs (cancel_found env lossy id found jobs)
unfolding cancel_found
found-Answers env lossy id none jobs = inl (refl, refl)
found-Answers env lossy id (some r) jobs = inr (
  r,
  refl,
  elim (request_cancel_lem env r) [
    | inl (s, same) ↦ inl (s, rw same)
    | inr (nt, st, flag, done, h) ↦
        let q = (request_cancel env r).0 in
        inr (
          nt,
          q,
          rw done (get-insert id id q jobs ∙ ground (arith, eq_iff id id)),
          st,
          flag,
          rw done,
        )
  ],
)

-- After pruning, a cancel call answers that there is no such job, or that the job has ended or is
-- being canceled, and then changes nothing; or else it answers the job's snapshot, and the job is
-- canceling with its flag raised.
pub cancel-Answers :
    (env : Env) (lossy : Bytes → Bytes) (id : String) (jobs : JobRegistry)
    → let pruned = prune_expired env.instant jobs in
      Answers env lossy id (Table.get id pruned) pruned (cancel env lossy id jobs)
unfolding cancel Registry.get
cancel-Answers env lossy id jobs =
    found-Answers env lossy id (Table.get id (prune_expired env.instant jobs)) _
