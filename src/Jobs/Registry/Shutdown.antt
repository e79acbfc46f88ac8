-- ===== src/Jobs/Registry/Shutdown.antt =====
-- `shutdown` of src-tauri/src/api_server/jobs.rs.
use hlem_ssh.Prelude.{
  ℕ, ◌≡◌, refl, sym, ap, ◌∙◌, ◌⊎◌, inl, inr, true, [], ◌∷◌, arith, String, Option, none, some,
  str_eq, any, Bool-cases, Option-cases, ◌==◌,
}
use hlem_ssh.Prelude.Table
use hlem_ssh.Prelude.Table.{get-insert, values}
use hlem_ssh.Jobs.Data.{Env, is_terminal}
use hlem_ssh.Jobs.Events.{push_event}
use hlem_ssh.Jobs.Record.{JobRecord, status_of, finish_canceled}
use hlem_ssh.Jobs.Record.Methods.{request_cancel}
use hlem_ssh.Jobs.Registry.{JobRegistry, each, shutdown, handle_or_finish, handles}
use hlem_ssh.Jobs.Registry.Cancel.{
  is_stopping, get-each, stopping-request_cancel, handle-request_cancel,
}

handles_found :
    (jobs : JobRegistry) (id : String) (r : JobRecord) (n : ℕ)
    → Table.get id jobs ≡ some r
    → r.handle ≡ some n
    → any (λ x. x == n) (handles (values jobs)) ≡ true
unfolding Table.get handles
handles_found [] id r n h e = cc
handles_found ((j, q) ∷ jobs) id r n h e = elim (Bool-cases (str_eq j id)) [
  | inl s ↦
      let found : some q ≡ some r = rw s at h in
      let one : q ≡ r = cc found in
      let same : q.handle ≡ some n = ap (λ (x : JobRecord). x.handle) one ∙ e in
      rw (same, handles) (ground arith)
  | inr s ↦
      let rest = handles_found jobs id r n (rw s at h) e in
      elim (Option-cases q.handle) [
        | inl o ↦ rw (o, handles) rest
        | inr (m, o) ↦ rw (o, handles) (ground arith)
      ]
]

finish_canceled_lem :
    (env : Env) (r : JobRecord)
    → (is_terminal (status_of (finish_canceled env r)) ≡ true)
      × ((finish_canceled env r).handle ≡ r.handle)
unfolding finish_canceled push_event
finish_canceled_lem env r = ground arith

-- After the requests of a shutdown, each job in the table holds no task, and is canceling or has
-- ended; if it has not ended, it held a task before, which is among those to be awaited.
pub shutdown-stops :
    (env : Env) (jobs : JobRegistry) (id : String) (r : JobRecord)
    → Table.get id (shutdown env jobs).0 ≡ some r
    → (r.handle ≡ none)
      × (is_stopping (status_of r) ≡ true)
      × ((is_terminal (status_of r) ≡ true)
          ⊎ ((q : JobRecord) × (n : ℕ) × (Table.get id jobs ≡ some q)
              × (q.handle ≡ some n)
              × (any (λ x. x == n) (shutdown env jobs).1 ≡ true)))
unfolding shutdown
shutdown-stops env jobs id r h =
    let (p, g, same) = get-each (λ q. handle_or_finish env q.handle q) id _ h in
    let (q, g', same') = get-each (λ q. (request_cancel env q).0) id jobs g in
    elim (Option-cases p.handle) [
      | inl e ↦
          let ended = finish_canceled_lem env p in
          let now : r ≡ finish_canceled env p =
            same ∙ (unfold handle_or_finish in ap (λ (o : Option ℕ). handle_or_finish env o p) e) in
          rw now (ended.1 ∙ e, ground (arith, ended.0), inl ended.0)
      | inr (n, e) ↦
          let now : r ≡ record p { handle = none } =
            same ∙ (unfold handle_or_finish in ap (λ (o : Option ℕ). handle_or_finish env o p) e) in
          rw now (
            refl,
            rw same' (stopping-request_cancel env q),
            inr (
              q,
              n,
              g',
              sym (handle-request_cancel env q) ∙ sym (ap (λ (x : JobRecord). x.handle) same') ∙ e,
              handles_found (each (λ q. (request_cancel env q).0) jobs) id p n g e,
            ),
          )
    ]
