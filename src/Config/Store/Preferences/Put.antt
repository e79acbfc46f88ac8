-- ===== src/Config/Store/Preferences/Put.antt =====
-- Where an accepted quick command stands in the list (src-tauri/src/vault.rs).
use hlem_ssh.Prelude.{none, Option, ◌+◌}
use hlem_ssh.Prelude.{
  length-append, ℕ, zero, suc, ◌-◌, ◌≤◌, ◌≡◌, refl, sym, ap, ◌∙◌, false, List, [], ◌∷◌, ◌++◌, some,
  ltb, length, drop, arith, ◌⊎◌, take, length-take, take-append-drop, if_cases, All, inl, inr,
}
use hlem_ssh.Prelude.Chars.{same_text}
use hlem_ssh.Config.Data.{QuickCommand, VaultData}
use hlem_ssh.Config.Validate.{AppResult, valid}
use hlem_ssh.Config.Settings.{
  validate_quick_commands, check_app_proxy, validate_backup_settings,
  validate_collapsed_connection_section_ids, validate_settings,
}
use hlem_ssh.Config.Store.{true, Option, update_first}
use hlem_ssh.Config.Store.Preferences.{
  or_push, push_command, put_command, max_quick_commands, store_command,
}
use hlem_ssh.Config.Store.Preferences.Commands.{
  IsNamed, then_replace, third_valid, checked_parts, validate_quick_commands-put_command,
}

abbrev pub Lacks : QuickCommand → List QuickCommand → Type 0
Lacks c cs = All (λ (x : QuickCommand). same_text x.id c.id ≡ false) cs

-- The first command of its id is replaced.
abbrev pub IsReplaced : QuickCommand → List QuickCommand → List QuickCommand → Type 0
IsReplaced c cs ds =
    (front : List QuickCommand) × (back : List QuickCommand) × (old : QuickCommand) × (cs
      ≡ front ++ old ∷ back)
    × Lacks c front
    × (same_text old.id c.id ≡ true)
    × (ds ≡ front ++ c ∷ back)

-- A command of a new id is added at the end; of the others the oldest have gone that are too many.
abbrev pub IsAdded : QuickCommand → List QuickCommand → List QuickCommand → Type 0
IsAdded c cs ds =
    Lacks c cs
    × ((gone : List QuickCommand) × (kept : List QuickCommand) × (cs ≡ gone ++ kept)
        × (length gone ≡ length cs + 1 - max_quick_commands)
        × (ds ≡ kept ++ c ∷ []))

drop-push :
    (n : ℕ) (cs : List QuickCommand) (c : QuickCommand)
    → n ≤ length cs
    → drop n (cs ++ c ∷ []) ≡ drop n cs ++ c ∷ []
drop-push zero cs c h = refl
drop-push (suc n) [] c h = absurd (omega arith)
drop-push (suc n) (x ∷ cs) c h = drop-push n cs c (omega arith)

-- How many have to go.
abbrev surplus : List QuickCommand → ℕ
surplus cs = length cs + 1 - max_quick_commands

push_command-drop :
    (c : QuickCommand) (cs : List QuickCommand) → push_command c cs ≡ drop (surplus cs) cs ++ c ∷ []
unfolding push_command
push_command-drop c cs =
    let len = length-append cs (c ∷ []) in
    if_cases (λ (ds : List QuickCommand). ds ≡ drop (surplus cs) cs ++ c ∷ [])
      (ltb max_quick_commands (length (cs ++ c ∷ []))) _ _
      (λ _.
        ap (λ n. drop (n - max_quick_commands) (cs ++ c ∷ [])) len
        ∙ drop-push (surplus cs) cs c (omega arith))
      λ e.
        let few : surplus cs ≡ 0 = ground (arith, e, len) in ap (λ n. drop n cs ++ c ∷ []) (sym few)

push_command-IsAdded :
    (c : QuickCommand) (cs : List QuickCommand) → Lacks c cs → IsAdded c cs (push_command c cs)
push_command-IsAdded c cs lacks = (
  lacks,
  (
    take (surplus cs) cs,
    drop (surplus cs) cs,
    sym (take-append-drop (surplus cs) cs),
    omega (arith, length-take (surplus cs) cs),
    push_command-drop c cs,
  ),
)

-- An update of the first command of an id.
abbrev Updated : QuickCommand → List QuickCommand → Option (List QuickCommand) → Type 0
Updated c cs none = Lacks c cs
Updated c cs (some ds) = IsReplaced c cs ds

later-Updated :
    (c x : QuickCommand) (cs : List QuickCommand) (o : Option (List QuickCommand))
    → same_text x.id c.id ≡ false
    → Updated c cs o
    → Updated c (x ∷ cs) (elim o [ none ↦ none | some ds ↦ some (x ∷ ds) ])
later-Updated c x cs none e u = (e, u)
later-Updated c x cs (some ds) e (front, back, old, split, lacks, same, put) =
    (x ∷ front, back, old, ap (λ l. x ∷ l) split, (e, lacks), same, ap (λ l. x ∷ l) put)

update_first-Updated :
    (c : QuickCommand) (cs : List QuickCommand)
    → Updated c cs (update_first (λ (x : QuickCommand). same_text x.id c.id) (λ x. c) cs)
update_first-Updated c [] = tt
update_first-Updated c (x ∷ cs) =
    if_cases (Updated c (x ∷ cs)) (same_text x.id c.id) _ _ (λ e. ([], cs, x, refl, tt, e, refl))
      (λ e.
        later-Updated c x cs (update_first (λ (y : QuickCommand). same_text y.id c.id) (λ y. c) cs)
          e (update_first-Updated c cs))

or_push-IsPut :
    (c : QuickCommand) (cs : List QuickCommand) (o : Option (List QuickCommand))
    → Updated c cs o
    → IsReplaced c cs (or_push c cs o) ⊎ IsAdded c cs (or_push c cs o)
or_push-IsPut c cs none lacks = inr (push_command-IsAdded c cs lacks)
or_push-IsPut c cs (some ds) u = inl u

-- With valid settings, a quick command that has a name and a text is always stored, and nothing else
-- in the data changes but the list of commands: there the first command of its id is replaced, or, if
-- there is none, it stands at the end, and of those before it just so many of the oldest have gone
-- that at most 100 are left.
pub store_command-stored :
    (c : QuickCommand) (v : VaultData)
    → IsNamed c
    → validate_settings v.settings ≡ valid
    → (ds : List QuickCommand) × (store_command c v
        ≡ AppResult.ok (record v { settings = record (v.settings) { quick_commands = ds } }))
      × (length ds ≤ max_quick_commands)
      × (IsReplaced c v.settings.quick_commands ds ⊎ IsAdded c v.settings.quick_commands ds)
unfolding store_command validate_settings put_command
store_command-stored c v n h =
    let cs = v.settings.quick_commands in
    let later =
      then_replace (check_app_proxy v.settings.proxy) (validate_backup_settings v.settings.backup)
        (validate_quick_commands cs) (validate_quick_commands (put_command c cs))
        (validate_collapsed_connection_section_ids v.settings.collapsed_connection_section_ids) in
    let passes = later h (validate_quick_commands-put_command c cs n) in
    (
      put_command c cs,
      rw passes refl,
      (checked_parts (put_command c cs) (
          validate_quick_commands-put_command c cs n (
            third_valid (check_app_proxy v.settings.proxy)
              (validate_backup_settings v.settings.backup) (validate_quick_commands cs)
              (validate_collapsed_connection_section_ids
                v.settings.collapsed_connection_section_ids)
              h))).0,
      or_push-IsPut c cs _ (update_first-Updated c cs),
    )
