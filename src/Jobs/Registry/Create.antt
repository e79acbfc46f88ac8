-- ===== src/Jobs/Registry/Create.antt =====
-- `create` of src-tauri/src/api_server/jobs.rs and the jobs that are there already.
use hlem_ssh.Prelude.{
  ℕ, ◌≡◌, ◌≢◌, refl, sym, subst, ◌∙◌, inl, inr, Bool, true, false, not, arith, String, none, some,
  str_eq, eq_iff, Bool-cases, leb, le→leb, length, if_cases, ◌≤◌,
}
use mathlib.Core.Option.{some-injective}
use hlem_ssh.Prelude.Table
use hlem_ssh.Prelude.Table.{values, get-remove, get-insert}
use hlem_ssh.Jobs.Data.{Env, is_terminal}
use hlem_ssh.Jobs.Record.{JobRecord, status_of}
use hlem_ssh.Jobs.Registry.{
  JobRegistry, Candidate, oldest_terminal, evict, evict_oldest_terminal, prune_expired, is_expired,
  create, make_room, Result, JobRegistryError, expired_ids, active_for_session, max_retained_jobs,
  max_active_jobs_per_session,
}
use hlem_ssh.Jobs.Registry.Prune.{Keyed, remove_all-Keyed, get-prune_expired}
use hlem_ssh.Jobs.Registry.Evict.{
  IsEnded, oldest_terminal-IsEnded, Keyed-Listed, evict_oldest_terminal-removes,
}

-- The jobs that have not ended outlive an eviction.
evict-keeps :
    (jobs : JobRegistry) (k : String) (q : JobRecord) (c : Candidate)
    → IsEnded jobs c
    → Table.get k jobs ≡ some q
    → is_terminal (status_of q) ≡ false
    → Table.get k (evict c jobs).0 ≡ some q
unfolding evict
evict-keeps jobs k q none e g t = g
evict-keeps jobs k q (some (id, created)) (r, found, ended, same) g t =
    elim (Bool-cases (str_eq id k)) [
      | inl e ↦
          absurd
            (clash (subst (λ (j : String). Table.get j jobs ≡ some r) ((eq_iff id k).0 e) found))
      | inr e ↦ get-remove id k jobs ∙ rw e g
    ]
  where
    clash : Table.get k jobs ≡ some r → ⊥
    clash f = ground (arith, some-injective (sym f ∙ g))

make_room-keeps :
    (jobs : JobRegistry) (k : String) (q : JobRecord)
    → Keyed jobs
    → Table.get k jobs ≡ some q
    → is_terminal (status_of q) ≡ false
    → Table.get k (make_room jobs).0 ≡ some q
unfolding make_room evict_oldest_terminal
make_room-keeps jobs k q keyed g t =
    if_cases (λ (p : JobRegistry × Bool). Table.get k p.0 ≡ some q)
      (leb max_retained_jobs (length (values jobs))) _ _
      (λ _.
        evict-keeps jobs k q (oldest_terminal (values jobs) none)
          (oldest_terminal-IsEnded jobs jobs none (Keyed-Listed jobs jobs keyed (λ id r h. h)) tt) g
          t)
      (λ _. g)

-- In a table whose keys are its jobs' ids, each once, a job that has not ended and has no time of
-- completion stays as it is when a job of another id is created or refused.
pub create-keeps_active :
    (env : Env) (job_id session_id command_preview : String) (timeout_ms : ℕ) (jobs : JobRegistry)
    (k : String) (q : JobRecord)
    → Keyed jobs
    → Table.get k jobs ≡ some q
    → is_terminal (status_of q) ≡ false
    → q.state.completed_at_instant ≡ none
    → job_id ≢ k
    → Table.get k (create env job_id session_id command_preview timeout_ms jobs).1 ≡ some q
unfolding create
create-keeps_active env job_id session_id command_preview timeout_ms jobs k q keyed g t open_
      other =
    let pruned = prune_expired env.instant jobs in
    let there : Table.get k pruned ≡ some q =
      get-prune_expired env.instant k jobs keyed
      ∙ rw g (unfold is_expired in rw (open_, is_expired)) in
    let kept =
      make_room-keeps pruned k q
        (unfold prune_expired in remove_all-Keyed (expired_ids env.instant jobs) jobs keyed) there
        t in
    if_cases Keeps (not (make_room pruned).1) _ _ (λ _. kept)
      λ _.
        if_cases Keeps (leb max_active_jobs_per_session (active_for_session pruned session_id)) _ _
          (λ _. kept)
          λ _. get-insert job_id k _ (make_room pruned).0 ∙ ground (arith, eq_iff job_id k)
  where
    Keeps : Result JobRecord × JobRegistry → Type 0
    Keeps p = Table.get k p.1 ≡ some q

-- A call that the session's limit refuses has made its room all the same: from a full table with an
-- ended job, one job is gone.
pub create_refused_evicts :
    (env : Env) (job_id session_id command_preview : String) (timeout_ms : ℕ) (jobs : JobRegistry)
    (k : String) (q : JobRecord)
    → let pruned = prune_expired env.instant jobs in
      Keyed pruned
      → Table.get k pruned ≡ some q
      → is_terminal (status_of q) ≡ true
      → max_retained_jobs ≤ length (values pruned)
      → max_active_jobs_per_session ≤ active_for_session pruned session_id
      → (id : String) × (r : JobRecord) × (Table.get id pruned ≡ some r)
        × (create env job_id session_id command_preview timeout_ms jobs
            ≡ (Result.err JobRegistryError.capacity, Table.remove id pruned))
unfolding create make_room
create_refused_evicts env job_id session_id command_preview timeout_ms jobs k q keyed g t full
      busy =
    let (id, r, found, ended, older, out) =
      evict_oldest_terminal-removes (prune_expired env.instant jobs) k q keyed g t in
    (id, r, found, rw (le→leb _ _ full) (rw (out, le→leb _ _ busy) refl))
