-- ===== src/Config/Store/Preferences/Commands.antt =====
-- What an accepted quick command (src-tauri/src/vault.rs) does to the list of them.
use hlem_ssh.Prelude.{
  ℕ, zero, suc, ◌-◌, ◌≤◌, ◌≡◌, refl, sym, ap, ◌∙◌, Bool, false, List, [], ◌∷◌, ◌++◌, some, ltb,
  length, drop, arith, if_cases, All, All-append, Bool-cases, Option-cases, inl, inr, length-drop,
}
use hlem_ssh.Prelude.Chars.{is_empty, same_text, trim}
use hlem_ssh.Config.Data.{QuickCommand}
use hlem_ssh.Config.Validate.{AppResult, Checked, valid, then_check}
use hlem_ssh.Config.Settings.{check_commands, validate_quick_commands}
use hlem_ssh.Config.Store.{update_first}
use hlem_ssh.Config.Store.Links.Lemmas.{All-update_first}
use hlem_ssh.Config.Store.Preferences.{push_command, put_command, max_quick_commands}

abbrev pub IsNamed : QuickCommand → Type 0
IsNamed c = (is_empty (trim c.name) ≡ false) × (is_empty (trim c.command) ≡ false)

check_named : (cs : List QuickCommand) → All IsNamed cs → check_commands cs ≡ valid
unfolding check_commands
check_named [] h = refl
check_named (c ∷ cs) h = rw h.0.0 (rw h.0.1 (check_named cs h.1))

check_commands-IsNamed : (cs : List QuickCommand) → check_commands cs ≡ valid → All IsNamed cs
unfolding check_commands
check_commands-IsNamed [] h = tt
check_commands-IsNamed (c ∷ cs) h = elim (Bool-cases (is_empty (trim c.name))) [
  | inl e ↦ absurd (cc (rw e at h))
  | inr e ↦ elim (Bool-cases (is_empty (trim c.command))) [
    | inl f ↦ absurd (cc (rw (e, f) at h))
    | inr f ↦ ((e, f), check_commands-IsNamed cs (rw (e, f) at h))
  ]
]

pub checked_parts :
    (cs : List QuickCommand)
    → validate_quick_commands cs ≡ valid
    → (length cs ≤ max_quick_commands) × All IsNamed cs
unfolding validate_quick_commands
checked_parts cs h = elim (Bool-cases (ltb 100 (length cs))) [
  | inl e ↦ absurd (cc (rw e at h))
  | inr e ↦ (ground (arith, e), check_commands-IsNamed cs (rw e at h))
]

check_parts :
    (cs : List QuickCommand)
    → length cs ≤ max_quick_commands
    → All IsNamed cs
    → validate_quick_commands cs ≡ valid
unfolding validate_quick_commands
check_parts cs few h =
    let e : ltb 100 (length cs) ≡ false = ground (arith, few) in rw e (check_named cs h)

All-drop : (n : ℕ) (cs : List QuickCommand) → All IsNamed cs → All IsNamed (drop n cs)
All-drop zero cs h = h
All-drop (suc n) [] h = h
All-drop (suc n) (c ∷ cs) h = All-drop n cs h.1

length-update_first :
    (p : QuickCommand → Bool) (f : QuickCommand → QuickCommand) (cs ds : List QuickCommand)
    → update_first p f cs ≡ some ds
    → length ds ≡ length cs
length-update_first p f [] ds h = absurd cc
length-update_first p f (c ∷ cs) ds h = elim (Bool-cases (p c)) [
  | inl e ↦
      let found : some (f c ∷ cs) ≡ some ds = rw e at h in
      let list : f c ∷ cs ≡ ds = cc found in sym (ap length list)
  | inr e ↦ elim (Option-cases (update_first p f cs)) [
    | inl o ↦ absurd (cc (rw (e, o) at h))
    | inr (zs, o) ↦
        let found : some (c ∷ zs) ≡ some ds = rw (e, o) at h in
        let list : c ∷ zs ≡ ds = cc found in
        sym (ap length list) ∙ ap suc (length-update_first p f cs zs o)
  ]
]

push_command-length :
    (c : QuickCommand) (cs : List QuickCommand) → length (push_command c cs) ≤ max_quick_commands
unfolding push_command
push_command-length c cs =
    ground (arith, length-drop (length (cs ++ c ∷ []) - max_quick_commands) (cs ++ c ∷ []))

push_command-IsNamed :
    (c : QuickCommand) (cs : List QuickCommand)
    → IsNamed c
    → All IsNamed cs
    → All IsNamed (push_command c cs)
unfolding push_command
push_command-IsNamed c cs n h =
    let pushed = All-append IsNamed cs (c ∷ []) h (n, tt) in
    if_cases (All IsNamed) (ltb max_quick_commands (length (cs ++ c ∷ []))) _ _
      (λ _. All-drop _ (cs ++ c ∷ []) pushed) (λ _. pushed)

-- A list that is accepted stays so.
pub validate_quick_commands-put_command :
    (c : QuickCommand) (cs : List QuickCommand)
    → IsNamed c
    → validate_quick_commands cs ≡ valid
    → validate_quick_commands (put_command c cs) ≡ valid
unfolding put_command
validate_quick_commands-put_command c cs n h =
    let (few, named) = checked_parts cs h in
    elim (Option-cases (update_first (λ (x : QuickCommand). same_text x.id c.id) (λ x. c) cs)) [
      | inl e ↦ rw e (
          check_parts (push_command c cs) (push_command-length c cs)
            (push_command-IsNamed c cs n named))
      | inr (ds, e) ↦ rw e (
          check_parts ds (omega (arith, few, length-update_first _ _ cs ds e))
            (All-update_first IsNamed _ (λ x. c) cs (λ x _. n) e named))
    ]

-- One of the checks in a row, replaced by another that passes.
pub then_replace :
    (a b q q' d : Checked)
    → then_check a (then_check b (then_check q d)) ≡ valid
    → (q ≡ valid → q' ≡ valid)
    → then_check a (then_check b (then_check q' d)) ≡ valid
then_replace (AppResult.ok u) (AppResult.ok w) (AppResult.ok x) q' d h f = rw (f refl) h
then_replace (AppResult.ok u) (AppResult.ok w) (AppResult.err error) q' d h f = absurd cc
then_replace (AppResult.ok u) (AppResult.err error) q q' d h f = absurd cc
then_replace (AppResult.err error) b q q' d h f = absurd cc

pub third_valid :
    (a b q d : Checked) → then_check a (then_check b (then_check q d)) ≡ valid → q ≡ valid
third_valid (AppResult.ok u) (AppResult.ok w) (AppResult.ok x) d h = refl
third_valid (AppResult.ok u) (AppResult.ok w) (AppResult.err error) d h = absurd cc
third_valid (AppResult.ok u) (AppResult.err error) q d h = absurd cc
third_valid (AppResult.err error) b q d h = absurd cc
