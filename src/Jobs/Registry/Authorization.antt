-- ===== src/Jobs/Registry/Authorization.antt =====
-- `cancel_disallowed` of src-tauri/src/api_server/jobs.rs.
use hlem_ssh.Prelude.{
  ◌≡◌, ap, ◌∙◌, ◌⊎◌, inl, inr, Bool, true, not, List, [], ◌∷◌, arith, String, some, str_eq, any,
  Bool-cases, if_cases, ◌&&◌,
}
use hlem_ssh.Prelude.Table
use hlem_ssh.Prelude.Table.{get-insert, values}
use hlem_ssh.Jobs.Data.{Env, is_active}
use hlem_ssh.Jobs.Record.{JobRecord, status_of}
use hlem_ssh.Jobs.Record.Methods.{authorization_state}
use hlem_ssh.Jobs.Registry.{JobRegistry, cancel_disallowed, cancel_if_disallowed}
use hlem_ssh.Jobs.Registry.Cancel.{is_stopping, get-each, stopping-request_cancel}

abbrev pub is_allowed : List String → JobRecord → Bool
is_allowed allowed r = any (λ s. str_eq s r.state.snapshot.session_id) allowed

cancel_if_disallowed_lem :
    (env : Env) (allowed : List String) (r : JobRecord)
    → (is_allowed allowed (cancel_if_disallowed env allowed r) ≡ true)
      ⊎ (is_stopping (status_of (cancel_if_disallowed env allowed r)) ≡ true)
unfolding cancel_if_disallowed authorization_state
cancel_if_disallowed_lem env allowed r =
    if_cases (λ (q : JobRecord). (is_allowed allowed q ≡ true) ⊎ (is_stopping (status_of q) ≡ true))
      (is_active (status_of r) && not (is_allowed allowed r)) _ _
      (λ _. inr (stopping-request_cancel env r))
      (λ e. elim (Bool-cases (is_allowed allowed r)) [ inl a ↦ inl a | inr a ↦ inr (ground arith) ])

-- After `cancel_disallowed`, each job in the table is of an allowed session, or is canceling, or
-- has ended.
pub cancel_disallowed-stops :
    (env : Env) (allowed : List String) (jobs : JobRegistry) (id : String) (r : JobRecord)
    → Table.get id (cancel_disallowed env allowed jobs) ≡ some r
    → (is_allowed allowed r ≡ true) ⊎ (is_stopping (status_of r) ≡ true)
unfolding cancel_disallowed
cancel_disallowed-stops env allowed jobs id r h =
    let (q, g, same) = get-each (cancel_if_disallowed env allowed) id jobs h in
    rw same (cancel_if_disallowed_lem env allowed q)

allowed_kept :
    (env : Env) (allowed : List String) (r : JobRecord)
    → is_allowed allowed r ≡ true
    → cancel_if_disallowed env allowed r ≡ r
unfolding cancel_if_disallowed authorization_state
allowed_kept env allowed r a = ground arith

-- `cancel_disallowed` leaves a job of an allowed session as it was, if its entry is the one found
-- under its key.
pub cancel_disallowed-keeps :
    (env : Env) (allowed : List String) (jobs : JobRegistry) (id : String) (r : JobRecord)
    → Table.get id jobs ≡ some r
    → is_allowed allowed r ≡ true
    → Table.get id (cancel_disallowed env allowed jobs) ≡ some r
unfolding cancel_disallowed Table.get
cancel_disallowed-keeps env allowed [] id r h a = cc
cancel_disallowed-keeps env allowed ((j, q) ∷ jobs) id r h a = elim (Bool-cases (str_eq j id)) [
  | inl e ↦
      let found : some q ≡ some r = rw e at h in
      let same : q ≡ r = cc found in
      rw e (
        ap (λ (x : JobRecord). some (cancel_if_disallowed env allowed x)) same
        ∙ ap some (allowed_kept env allowed r a))
  | inr e ↦ rw e (cancel_disallowed-keeps env allowed jobs id r (rw e at h) a)
]
