-- ===== src/Jobs/Registry/Evict.antt =====
-- The choice of `evict_oldest_terminal` of src-tauri/src/api_server/jobs.rs.
use hlem_ssh.Prelude.{
  ◌≡◌, refl, subst, inl, inr, true, false, [], ◌∷◌, arith, String, none, some, str_eq, eq_iff,
  Bool-cases,
}
use hlem_ssh.Prelude.Text.{str_lt, str_lt_trans, str_lt_irrefl}
use hlem_ssh.Prelude.Table
use hlem_ssh.Prelude.Table.{values, get-remove, get-insert}
use hlem_ssh.Jobs.Data.{is_terminal}
use hlem_ssh.Jobs.Record.{JobRecord, status_of}
use hlem_ssh.Jobs.Registry.{
  JobRegistry, Candidate, is_older, consider, oldest_terminal, evict, evict_oldest_terminal,
}
use hlem_ssh.Jobs.Registry.Prune.{Keyed}

abbrev pub created_at_of : JobRecord → String
created_at_of r = r.state.snapshot.created_at

-- The entries of `rest` are entries of `jobs`, under their ids.
abbrev pub Listed : JobRegistry → JobRegistry → Type 0
Listed jobs [] = Unit
Listed jobs ((id, r) ∷ rest) =
    (id ≡ r.state.snapshot.job_id) × (Table.get id jobs ≡ some r) × Listed jobs rest

-- A candidate is an ended job of the table.
abbrev pub IsEnded : JobRegistry → Candidate → Type 0
IsEnded jobs none = Unit
IsEnded jobs (some (id, t)) =
    (r : JobRecord) × (Table.get id jobs ≡ some r)
    × (is_terminal (status_of r) ≡ true)
    × (created_at_of r ≡ t)

consider-IsEnded :
    (jobs : JobRegistry) (id : String) (r : JobRecord) (c : Candidate)
    → id ≡ r.state.snapshot.job_id
    → Table.get id jobs ≡ some r
    → IsEnded jobs c
    → IsEnded jobs (consider r c)
unfolding consider
consider-IsEnded jobs id r c e g h = elim (Bool-cases (is_terminal (status_of r))) [
  | inl t ↦ elim (Bool-cases (is_older (created_at_of r) c)) [
    | inl o ↦ rw (t, o) (r, subst (λ (k : String). Table.get k jobs ≡ some r) e g, t, refl)
    | inr o ↦ rw (t, o) h
  ]
  | inr t ↦ rw t h
]

pub oldest_terminal-IsEnded :
    (jobs rest : JobRegistry) (c : Candidate)
    → Listed jobs rest
    → IsEnded jobs c
    → IsEnded jobs (oldest_terminal (values rest) c)
unfolding oldest_terminal
oldest_terminal-IsEnded jobs [] c l h = h
oldest_terminal-IsEnded jobs ((id, r) ∷ rest) c l h =
    oldest_terminal-IsEnded jobs rest (consider r c) l.2 (consider-IsEnded jobs id r c l.0 l.1 h)

-- A job that the candidate beats stays beaten.
is_older-consider :
    (t : String) (r : JobRecord) (c : Candidate)
    → is_older t c ≡ false
    → is_older t (consider r c) ≡ false
unfolding is_older consider
is_older-consider t r none h = cc
is_older-consider t r (some (id, oldest)) h =
    ground (arith, str_lt_trans t (created_at_of r) oldest)

is_older-consider_self :
    (r : JobRecord) (c : Candidate)
    → is_terminal (status_of r) ≡ true
    → is_older (created_at_of r) (consider r c) ≡ false
unfolding is_older consider
is_older-consider_self r none h = ground (arith, str_lt_irrefl (created_at_of r))
is_older-consider_self r (some (id, oldest)) h = ground (arith, str_lt_irrefl (created_at_of r))

beaten_stays :
    (t : String) (rest : JobRegistry) (c : Candidate)
    → is_older t c ≡ false
    → is_older t (oldest_terminal (values rest) c) ≡ false
unfolding oldest_terminal
beaten_stays t [] c h = h
beaten_stays t ((id, r) ∷ rest) c h = beaten_stays t rest (consider r c) (is_older-consider t r c h)

ended_beaten :
    (k : String) (q : JobRecord) (rest : JobRegistry) (c : Candidate)
    → Table.get k rest ≡ some q
    → is_terminal (status_of q) ≡ true
    → is_older (created_at_of q) (oldest_terminal (values rest) c) ≡ false
unfolding oldest_terminal Table.get
ended_beaten k q [] c h t = cc
ended_beaten k q ((id, r) ∷ rest) c h t = elim (Bool-cases (str_eq id k)) [
  | inl e ↦
      let found : some r ≡ some q = rw e at h in
      let same : r ≡ q = cc found in
      beaten_stays (created_at_of q) rest (consider r c) (
        subst (λ (x : JobRecord). is_older (created_at_of x) (consider r c) ≡ false) same
          (is_older-consider_self r c (rw same t)))
  | inr e ↦ ended_beaten k q rest (consider r c) (rw e at h) t
]

get_head :
    (id : String) (r : JobRecord) (rest : JobRegistry) → Table.get id ((id, r) ∷ rest) ≡ some r
unfolding Table.get
get_head id r rest = ground (arith, eq_iff id id)

-- An entry further down has another key than the head.
get_tail :
    (id j : String) (r q : JobRecord) (rest : JobRegistry)
    → Table.get id rest ≡ none
    → Table.get j rest ≡ some q
    → Table.get j ((id, r) ∷ rest) ≡ some q
unfolding Table.get
get_tail id j r q rest fresh g = elim (Bool-cases (str_eq id j)) [
  | inl e ↦
      absurd (clash (subst (λ (t : String). Table.get t rest ≡ none) ((eq_iff id j).0 e) fresh))
  | inr e ↦ rw e g
]
  where
    clash : Table.get j rest ≡ none → ⊥
    clash n = cc (n, g)

pub Keyed-Listed :
    (jobs rest : JobRegistry)
    → Keyed rest
    → ((id : String) (r : JobRecord) → Table.get id rest ≡ some r → Table.get id jobs ≡ some r)
    → Listed jobs rest
Keyed-Listed jobs [] k sub = tt
Keyed-Listed jobs ((id, r) ∷ rest) k sub = (
  k.0,
  sub id r (get_head id r rest),
  Keyed-Listed jobs rest k.2 (λ j q g. sub j q (get_tail id j r q rest k.1 g)),
)

chosen :
    (jobs : JobRegistry) (q : JobRecord) (c : Candidate)
    → IsEnded jobs c
    → is_older (created_at_of q) c ≡ false
    → (id : String) × (r : JobRecord) × (Table.get id jobs ≡ some r)
      × (is_terminal (status_of r) ≡ true)
      × (str_lt (created_at_of q) (created_at_of r) ≡ false)
      × (evict c jobs ≡ (Table.remove id jobs, true))
unfolding is_older evict
chosen jobs q none e b = cc
chosen jobs q (some (id, t)) (r, g, ended, same) b = (id, r, g, ended, rw same b, rw g)

-- In a table whose keys are its jobs' ids, each once, and that has an ended job, eviction succeeds
-- and removes an ended job that is not younger than that one.
pub evict_oldest_terminal-removes :
    (jobs : JobRegistry) (k : String) (q : JobRecord)
    → Keyed jobs
    → Table.get k jobs ≡ some q
    → is_terminal (status_of q) ≡ true
    → (id : String) × (r : JobRecord) × (Table.get id jobs ≡ some r)
      × (is_terminal (status_of r) ≡ true)
      × (str_lt (created_at_of q) (created_at_of r) ≡ false)
      × (evict_oldest_terminal jobs ≡ (Table.remove id jobs, true))
unfolding evict_oldest_terminal evict
evict_oldest_terminal-removes jobs k q keyed g t =
    let ended =
      oldest_terminal-IsEnded jobs jobs none (Keyed-Listed jobs jobs keyed (λ id r g. g)) tt in
    chosen jobs q (oldest_terminal (values jobs) none) ended (ended_beaten k q jobs none g t)
