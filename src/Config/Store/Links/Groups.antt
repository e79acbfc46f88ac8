-- ===== src/Config/Store/Links/Groups.antt =====
-- The edits of groups (src-tauri/src/vault.rs) and the references between entries.
use hlem_ssh.Prelude.{
  ◌≡◌, refl, ◌∙◌, true, false, ◌==◌, List, [], ◌∷◌, Option, none, some, All, arith, map, Bool-cases,
  inl, inr, if_cases, length,
}
use hlem_ssh.Prelude.Chars.{Text}
use hlem_ssh.Prelude.Chars.Laws.{same_text_refl}
use hlem_ssh.Config.Data.{VaultData, SessionGroup, SessionConfig, GroupInput}
use hlem_ssh.Config.Group
use hlem_ssh.Config.Vault.{
  default_group_id, is_default_group_id, same_option, find_default, first_group, group_id_of,
  or_else,
}
use hlem_ssh.Config.Validate.{AppError, AppResult, Checked, validate_group_input}
use hlem_ssh.Config.Store.{
  Edited, after_check, or_missing, update_first, create_group, update_group, delete_group,
  without_group, clear_parent, move_session,
}
use hlem_ssh.Config.Store.Links.{group_exists, Grouped, Owned, Linked, Keeps}
use hlem_ssh.Config.Store.Links.Lemmas.{
  has-append, has-without, has-map, has-update_first, All-imp, All-map,
}

pub after_check-Keeps :
    (c : Checked) (e : Edited) → (c ≡ AppResult.ok tt → Keeps e) → Keeps (after_check c e)
after_check-Keeps (AppResult.ok tt) e h = h refl
after_check-Keeps (AppResult.err error) e h = tt

pub or_missing-Keeps {ℓ} :
    {A : Type ℓ} (error : AppError) (f : A → VaultData) (o : Option A)
    → ((a : A) → o ≡ some a → Linked (f a))
    → Keeps (or_missing error f o)
or_missing-Keeps error f none h = tt
or_missing-Keeps error f (some a) h = h a refl

-- Sessions keep their groups where every id stays.
regroup :
    (groups groups' : List SessionGroup) (sessions : List SessionConfig)
    → ((id : Text) → group_exists groups (some id) ≡ true → group_exists groups' (some id) ≡ true)
    → All (Grouped groups) sessions
    → All (Grouped groups') sessions
regroup groups groups' sessions stays =
    All-imp (Grouped groups) (Grouped groups') sessions (λ s. still s.group_id)
  where
    still : (o : Option Text) → group_exists groups o ≡ true → group_exists groups' o ≡ true
    still none h = refl
    still (some id) h = stays id h

pub create_group-Keeps :
    (id now : Text) (input : GroupInput) (v : VaultData)
    → Linked v
    → Keeps (create_group id now input v)
unfolding create_group
create_group-Keeps id now input v l = after_check-Keeps (validate_group_input v none input) _ λ _.
    record {
      grouped =
          regroup v.groups _ v.sessions
            (λ g h. has-append (λ (x : SessionGroup). x.id) v.groups _ g h) l.grouped;
      owned = l.owned;
    }

pub update_group-Keeps :
    (now group_id : Text) (input : GroupInput) (v : VaultData)
    → Linked v
    → Keeps (update_group now group_id input v)
unfolding update_group Group.update
update_group-Keeps now group_id input v l =
    after_check-Keeps (validate_group_input v (some group_id) input) _ λ _.
      or_missing-Keeps _ _ (update_first _ (Group.update now input) v.groups) λ groups e. record {
        grouped =
            regroup v.groups groups v.sessions
              (λ g h.
                has-update_first (λ (x : SessionGroup). x.id) _ (Group.update now input) v.groups g
                  (λ x. refl) e
                ∙ h)
              l.grouped;
        owned = l.owned;
      }

found_exists :
    (groups : List SessionGroup) → group_exists groups (group_id_of (find_default groups)) ≡ true
unfolding find_default
found_exists [] = refl
found_exists (g ∷ groups) = elim (Bool-cases (g.sort_order == 0)) [
  | inl e ↦ rw e (rw (same_text_refl g.id) refl)
  | inr e ↦ rw e (more (find_default groups) (found_exists groups))
]
  where
    more :
        (o : Option SessionGroup)
        → group_exists groups (group_id_of o) ≡ true
        → group_exists (g ∷ groups) (group_id_of o) ≡ true
    more none h = refl
    more (some d) h = ground arith

default_exists : (v : VaultData) → group_exists v.groups (default_group_id v) ≡ true
unfolding default_group_id
default_exists v = either (find_default v.groups) v.groups (found_exists v.groups)
  where
    first_exists :
        (groups : List SessionGroup) → group_exists groups (group_id_of (first_group groups)) ≡ true
    first_exists [] = refl
    first_exists (g ∷ groups) = rw (same_text_refl g.id) refl

    either :
        (o : Option SessionGroup) (groups : List SessionGroup)
        → group_exists groups (group_id_of o) ≡ true
        → group_exists groups (group_id_of (or_else o (first_group groups))) ≡ true
    either none groups h = first_exists groups
    either (some d) groups h = h

clear_parent-id : (group_id : Text) (g : SessionGroup) → (clear_parent group_id g).id ≡ g.id
clear_parent-id group_id g = ground arith

-- A group other than the deleted one still exists.
exists-deleted :
    (group_id : Text) (groups : List SessionGroup) (o : Option Text)
    → same_option o (some group_id) ≡ false
    → group_exists groups o ≡ true
    → group_exists (map (clear_parent group_id) (without_group group_id groups)) o ≡ true
exists-deleted group_id groups none ne h = refl
exists-deleted group_id groups (some id) ne h =
    has-map (λ (x : SessionGroup). x.id) (clear_parent group_id) (without_group group_id groups) id
      (clear_parent-id group_id)
    ∙ has-without (λ (x : SessionGroup). x.id) groups id group_id ne h

move_session-Grouped :
    (group_id : Text) (v : VaultData) (s : SessionConfig)
    → is_default_group_id v group_id ≡ false
    → Grouped v.groups s
    → Grouped
        (map (clear_parent group_id) (without_group group_id v.groups))
        (move_session group_id (default_group_id v) s)
unfolding is_default_group_id
move_session-Grouped group_id v s other h =
    if_cases (Grouped (map (clear_parent group_id) (without_group group_id v.groups)))
      (same_option s.group_id (some group_id)) _ _
      (λ _. exists-deleted group_id v.groups (default_group_id v) other (default_exists v))
      (λ e. exists-deleted group_id v.groups s.group_id e h)

move_session-id :
    (group_id : Text) (o : Option Text) (s : SessionConfig) → (move_session group_id o s).id ≡ s.id
move_session-id group_id o s = ground arith

pub delete_group-Keeps :
    (group_id : Text) (v : VaultData) → Linked v → Keeps (delete_group group_id v)
unfolding delete_group
delete_group-Keeps group_id v l =
    if_cases Keeps (is_default_group_id v group_id) _ _ (λ _. tt)
      λ other.
        if_cases Keeps (length v.groups == length (without_group group_id v.groups)) _ _ (λ _. tt)
          λ _. record {
            grouped =
                All-map (Grouped v.groups) _ (move_session group_id (default_group_id v)) v.sessions
                  (λ s. move_session-Grouped group_id v s other) l.grouped;
            owned =
                All-imp (Owned v.sessions) _ v.tunnels
                  (λ t h.
                    has-map (λ (x : SessionConfig). x.id)
                      (move_session group_id (default_group_id v)) v.sessions t.session_id
                      (move_session-id group_id (default_group_id v))
                    ∙ h)
                  l.owned;
          }
