-- ===== src/Jobs/Registry/Prune.antt =====
-- Tables under the jobs' ids, and `prune_expired` of src-tauri/src/api_server/jobs.rs on them.
use hlem_ssh.Prelude.{
  ℕ, ◌≡◌, refl, subst, ◌∙◌, false, List, [], ◌∷◌, arith, String, Option, none, some, any, str_eq,
  eq_iff, if◌then◌else◌, Bool-cases, if_cases, any-if, Option-cases, inl, inr,
}
use hlem_ssh.Prelude.Table
use hlem_ssh.Prelude.Table.{get-remove}
use hlem_ssh.Jobs.Record.{JobRecord}
use hlem_ssh.Jobs.Registry.{JobRegistry, is_expired, expired_ids, prune_expired}

abbrev pub Keyed : JobRegistry → Type 0
Keyed [] = Unit
Keyed ((id, r) ∷ jobs) = (id ≡ r.state.snapshot.job_id) × (Table.get id jobs ≡ none) × Keyed jobs

get-remove_all :
    (ids : List String) (id : String) (jobs : JobRegistry)
    → Table.get id (Table.remove_all ids jobs)
      ≡ (if any (λ j. str_eq j id) ids then none else Table.get id jobs)
unfolding Table.remove_all
get-remove_all [] id jobs = refl
get-remove_all (j ∷ ids) id jobs =
    ground (arith, get-remove_all ids id (Table.remove j jobs), get-remove j id jobs)

-- A key that is not there is not among the expired.
not_expired :
    (now : ℕ) (id : String) (jobs : JobRegistry)
    → Table.get id jobs ≡ none
    → any (λ j. str_eq j id) (expired_ids now jobs) ≡ false
unfolding expired_ids Table.get
not_expired now id [] h = refl
not_expired now id ((j, r) ∷ jobs) h = ground (arith, not_expired now id jobs)

-- What a lookup finds is expired exactly if its key is collected.
expired_found :
    (now : ℕ) (id : String) (jobs : JobRegistry) {r : JobRecord}
    → Keyed jobs
    → Table.get id jobs ≡ some r
    → any (λ j. str_eq j id) (expired_ids now jobs) ≡ is_expired now r
unfolding expired_ids Table.get
expired_found now id [] k h = ground arith
expired_found now id ((j, q) ∷ jobs) {r} k h = elim (Bool-cases (str_eq j id)) [
  | inl e ↦
      let none_left : Table.get id jobs ≡ none =
        subst (λ (t : String). Table.get t jobs ≡ none) ((eq_iff j id).0 e) k.1 in
      any-if (λ i. str_eq i id) (is_expired now q) j (expired_ids now jobs)
      ∙ ground (arith, not_expired now id jobs none_left)
  | inr e ↦
      any-if (λ i. str_eq i id) (is_expired now q) j (expired_ids now jobs)
      ∙ ground (arith, expired_found now id jobs {r = r} k.2 (rw e at h))
]

abbrev pub unless_expired : ℕ → Option JobRecord → Option JobRecord
unless_expired now none = none
unless_expired now (some r) = if is_expired now r then none else some r

-- In a table whose keys are its jobs' ids, each once, pruning forgets exactly the jobs that ended
-- at least `COMPLETED_JOB_RETENTION` ago.
pub get-prune_expired :
    (now : ℕ) (id : String) (jobs : JobRegistry)
    → Keyed jobs
    → Table.get id (prune_expired now jobs) ≡ unless_expired now (Table.get id jobs)
unfolding prune_expired
get-prune_expired now id jobs k = elim (Option-cases (Table.get id jobs)) [
  | inl e ↦ get-remove_all (expired_ids now jobs) id jobs ∙ ground arith
  | inr (r, e) ↦
      get-remove_all (expired_ids now jobs) id jobs ∙ ground (arith, expired_found now id jobs k e)
]

-- Removing entries keeps the keys right.
remove-Keyed : (id : String) (jobs : JobRegistry) → Keyed jobs → Keyed (Table.remove id jobs)
unfolding Table.remove
remove-Keyed id [] k = tt
remove-Keyed id ((j, r) ∷ jobs) k =
    if_cases Keyed (str_eq j id) _ _ (λ _. remove-Keyed id jobs k.2)
      λ e. (k.0, ground (arith, get-remove id j jobs), remove-Keyed id jobs k.2)

pub remove_all-Keyed :
    (ids : List String) (jobs : JobRegistry) → Keyed jobs → Keyed (Table.remove_all ids jobs)
unfolding Table.remove_all
remove_all-Keyed [] jobs k = k
remove_all-Keyed (id ∷ ids) jobs k =
    remove_all-Keyed ids (Table.remove id jobs) (remove-Keyed id jobs k)
