-- ===== src/Jobs/Registry/Bounds.antt =====
-- The two limits of `create` of src-tauri/src/api_server/jobs.rs.
use hlem_ssh.Prelude.{
  ℕ, ◌+◌, ◌≤◌, ◌<◌, ◌≡◌, refl, subst, ◌∙◌, Bool, true, false, not, arith, String, length, leb,
  count_if, str_eq, eq_iff, is_some, Bool-cases, inl, inr, if_cases, if◌then◌else◌, none, some, ◌⊎◌,
  Option-cases,
}
use hlem_ssh.Prelude.Table
use hlem_ssh.Prelude.Table.{
  values, length-insert, length-remove, length-remove_all, length-remove_lt, length-values,
  count-remove, count-remove_all, count-insert,
}
use hlem_ssh.Jobs.Data.{Env}
use hlem_ssh.Jobs.Record
use hlem_ssh.Jobs.Record.{JobRecord}
use hlem_ssh.Jobs.Record.Methods.{is_active_for_session}
use hlem_ssh.Jobs.Registry.{
  Result, expired_ids, JobRegistry, Candidate, max_retained_jobs, max_active_jobs_per_session,
  prune_expired, evict, evict_oldest_terminal, make_room, active_for_session, create,
  oldest_terminal,
}

evict_shorter :
    (c : Candidate) (jobs : JobRegistry)
    → (length (evict c jobs).0 ≤ length jobs)
      × (((evict c jobs).1 ≡ false) ⊎ (length (evict c jobs).0 < length jobs))
unfolding evict
evict_shorter none jobs = (omega arith, inl refl)
evict_shorter (some (id, t)) jobs = elim (Bool-cases (is_some (Table.get id jobs))) [
  | inl e ↦ (length-remove id jobs, inr (length-remove_lt id jobs e))
  | inr e ↦ (length-remove id jobs, inl e)
]

abbrev Roomy : JobRegistry × Bool → Type 0
Roomy (jobs, fits) =
    (length jobs ≤ max_retained_jobs) × ((fits ≡ false) ⊎ (length jobs < max_retained_jobs))

abbrev Small : Result JobRecord × JobRegistry → Type 0
Small (r, jobs) = length jobs ≤ max_retained_jobs

make_room-Roomy : (jobs : JobRegistry) → length jobs ≤ max_retained_jobs → Roomy (make_room jobs)
unfolding make_room evict_oldest_terminal
make_room-Roomy jobs h =
    let e = evict_shorter (oldest_terminal (values jobs) none) jobs in
    if_cases Roomy (leb max_retained_jobs (length (values jobs))) _ _
      (λ _. (omega (arith, e.0), (elim (e.1) [ inl f ↦ inl f | inr l ↦ inr (omega arith) ])))
      (λ more. (h, inr (ground (arith, length-values jobs))))

-- If at most `MAX_RETAINED_JOBS` jobs are kept, then so after a call that creates a job, whatever
-- its answer.
pub length-create :
    (env : Env) (job_id session_id command_preview : String) (timeout_ms : ℕ) (jobs : JobRegistry)
    → length jobs ≤ max_retained_jobs
    → length (create env job_id session_id command_preview timeout_ms jobs).1 ≤ max_retained_jobs
unfolding create prune_expired
length-create env job_id session_id command_preview timeout_ms jobs h =
    let pruned = prune_expired env.instant jobs in
    let room = make_room-Roomy pruned (
      unfold prune_expired in
      omega (arith, length-remove_all (expired_ids env.instant jobs) jobs)) in
    if_cases Small (not (make_room pruned).1) _ _ (λ _. room.0)
      λ fits.
        if_cases Small (leb max_active_jobs_per_session (active_for_session pruned session_id)) _ _
          (λ _. room.0)
          λ _.
            let lt : length (make_room pruned).0 < max_retained_jobs = elim (room.1) [
              | inl f ↦ absurd (ground arith)
              | inr l ↦ l
            ] in
            omega (
              arith,
              length-insert job_id (Record.new env job_id session_id command_preview timeout_ms)
                  (make_room pruned).0,
            )

make_room-fewer :
    (p : JobRecord → Bool) (jobs : JobRegistry)
    → count_if p (values (make_room jobs).0) ≤ count_if p (values jobs)
unfolding make_room evict_oldest_terminal evict
make_room-fewer p jobs =
    if_cases (λ (q : JobRegistry × Bool). count_if p (values q.0) ≤ count_if p (values jobs))
      (leb max_retained_jobs (length (values jobs))) _ _
      (λ _. elim (Option-cases (oldest_terminal (values jobs) none)) [
        | inl e ↦ rw (e, evict) (omega arith)
        | inr ((id, t), e) ↦ rw (e, evict) (count-remove p id jobs)
      ])
      (λ _. omega arith)

abbrev Few : String → Result JobRecord × JobRegistry → Type 0
Few session (r, jobs) = active_for_session jobs session ≤ max_active_jobs_per_session

-- A new job counts for its own session only.
new-is_active_for_session :
    (env : Env) (job_id session_id command_preview session : String) (timeout_ms : ℕ)
    → is_active_for_session (Record.new env job_id session_id command_preview timeout_ms) session
      ≡ str_eq session_id session
unfolding Record.new is_active_for_session
new-is_active_for_session env job_id session_id command_preview session timeout_ms = ground arith

one_or_none : (b : Bool) → (if b then 1 else 0) ≤ 1
one_or_none true = omega arith
one_or_none false = omega arith

leb→gt : (a b : ℕ) → leb a b ≡ false → b < a
leb→gt a b h = ground arith

-- Inserting a job of one session, below that session's limit, keeps the limit of each.
insert-few :
    (session_id job_id : String) (r : JobRecord) (session : String) (jobs pruned : JobRegistry)
    → let p = λ (q : JobRecord). is_active_for_session q session in
      count_if p (values jobs) ≤ count_if p (values pruned)
      → count_if p (values jobs) ≤ max_active_jobs_per_session
      → leb max_active_jobs_per_session (active_for_session pruned session_id) ≡ false
      → is_active_for_session r session ≡ str_eq session_id session
      → count_if p (values (Table.insert job_id r jobs)) ≤ max_active_jobs_per_session
unfolding active_for_session
insert-few session_id job_id r session jobs pruned fewer small under new =
    let p = λ (q : JobRecord). is_active_for_session q session in
    let added = count-insert p job_id r jobs in
    elim (Bool-cases (str_eq session_id session)) [
      | inl e ↦
          let same : session_id ≡ session = (eq_iff session_id session).0 e in
          let under' : count_if p (values pruned) < max_active_jobs_per_session =
            subst
              (λ (t : String).
                count_if (λ (q : JobRecord). is_active_for_session q t) (values pruned)
                < max_active_jobs_per_session)
              same (leb→gt _ _ under) in
          omega (arith, added, one_or_none (is_active_for_session r session))
      | inr e ↦ omega (
        arith,
        subst
            (λ (b : Bool).
              count_if p (values (Table.insert job_id r jobs))
              ≤ count_if p (values jobs) + (if b then 1 else 0))
            (new ∙ e) added,
      )
    ]

-- If a session has at most `MAX_ACTIVE_JOBS_PER_SESSION` active jobs, then so after a call that
-- creates a job, for this session or another and whatever its answer.
pub active_for_session-create :
    (env : Env) (job_id session_id command_preview session : String) (timeout_ms : ℕ)
    (jobs : JobRegistry)
    → active_for_session jobs session ≤ max_active_jobs_per_session
    → active_for_session (create env job_id session_id command_preview timeout_ms jobs).1 session
      ≤ max_active_jobs_per_session
unfolding create prune_expired active_for_session
active_for_session-create env job_id session_id command_preview session timeout_ms jobs h =
    let p = λ (r : JobRecord). is_active_for_session r session in
    let pruned = prune_expired env.instant jobs in
    let before = count-remove_all p (expired_ids env.instant jobs) jobs in
    let roomy = make_room-fewer p pruned in
    let small : count_if p (values (make_room pruned).0) ≤ max_active_jobs_per_session =
      omega (arith, before, roomy) in
    if_cases (Few session) (not (make_room pruned).1) _ _ (λ _. small)
      λ _.
        if_cases (Few session)
          (leb max_active_jobs_per_session (active_for_session pruned session_id)) _ _ (λ _. small)
          λ under.
            insert-few session_id job_id
              (Record.new env job_id session_id command_preview timeout_ms) session
              (make_room pruned).0 pruned roomy small under
              (new-is_active_for_session env job_id session_id command_preview session timeout_ms)
