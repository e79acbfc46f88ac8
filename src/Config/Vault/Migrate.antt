-- ===== src/Config/Vault/Migrate.antt =====
-- The result of `migrate_vault_data` of src-tauri/src/config.rs.
use hlem_ssh.Prelude.{
  ◌≡◌, ◌≤◌, refl, sym, ap, ◌∙◌, Bool, true, false, not, ◌&&◌, List, [], ◌∷◌, Option, none, some,
  arith, Bool-cases, inl, inr, if_cases,
}
use hlem_ssh.Prelude.Chars.{Text, is_empty}
use hlem_ssh.Prelude.Chars.Laws.{same_text_refl, same_text-eq}
use hlem_ssh.Config.Data.{VaultData, AppSettings}
use hlem_ssh.Config.Vault.{
  vault_data_version, touch, same_option, raise_version, adopt_from, adopt_legacy_id, first_id,
  mirror_legacy_id, stop_auto_start, migrate_vault_data,
}

same_option_refl : (o : Option Text) → same_option o o ≡ true
same_option_refl none = refl
same_option_refl (some t) = same_text_refl t

same_option-eq : (o p : Option Text) → same_option o p ≡ true → o ≡ p
same_option-eq none none h = refl
same_option-eq none (some b) h = absurd (ground arith)
same_option-eq (some a) none h = absurd (ground arith)
same_option-eq (some a) (some b) h = ap some (same_text-eq a b h)

-- Data of this version: the old field mirrors the first authorised session, and the API starts by
-- itself only with one.
pub record IsCurrent (v : VaultData) : Type 0 where
  pub recent : vault_data_version ≤ v.version
  pub mirrored : v.settings.ai_api_session_id ≡ first_id v.settings.ai_api_session_ids
  pub guarded : (is_empty v.settings.ai_api_session_ids && v.settings.ai_api_auto_start) ≡ false

raise_version-recent : (v : VaultData) → vault_data_version ≤ (raise_version v).0.version
unfolding raise_version
raise_version-recent v = ground arith

mirror_legacy_id-mirrored :
    (s : AppSettings)
    → ((mirror_legacy_id s).0.ai_api_session_id
        ≡ first_id (mirror_legacy_id s).0.ai_api_session_ids)
unfolding mirror_legacy_id
mirror_legacy_id-mirrored s =
    if_cases (λ (p : AppSettings × Bool). p.0.ai_api_session_id ≡ first_id p.0.ai_api_session_ids)
      (not (same_option s.ai_api_session_id (first_id s.ai_api_session_ids))) _ _ (λ _. refl)
      (λ e. same_option-eq s.ai_api_session_id (first_id s.ai_api_session_ids) (ground arith))

stop_auto_start-guarded :
    (s : AppSettings)
    → let t = (stop_auto_start s).0 in
      (t.ai_api_session_id ≡ s.ai_api_session_id)
      × (t.ai_api_session_ids ≡ s.ai_api_session_ids)
      × ((is_empty t.ai_api_session_ids && t.ai_api_auto_start) ≡ false)
unfolding stop_auto_start
stop_auto_start-guarded s = ground arith

-- Migrated data is current, whatever it was: its version is at least this one, the old field of
-- the authorised session is the first of the list, and the API does not start by itself without
-- one.
pub migrate_vault_data-IsCurrent :
    (now : Text) (v : VaultData) → IsCurrent (migrate_vault_data now v).0
unfolding migrate_vault_data touch
migrate_vault_data-IsCurrent now v =
    let raised = (raise_version v).0 in
    let adopted = (adopt_legacy_id raised.settings).0 in
    let mirrored = (mirror_legacy_id adopted).0 in
    let (id, ids, guard) = stop_auto_start-guarded mirrored in
    let same = id ∙ mirror_legacy_id-mirrored adopted ∙ sym (ap first_id ids) in
    if_cases IsCurrent _ _ _
      (λ _. record { recent = raise_version-recent v; mirrored = same; guarded = guard })
      (λ _. record { recent = raise_version-recent v; mirrored = same; guarded = guard })

adopt_current :
    (s : AppSettings)
    → s.ai_api_session_id ≡ first_id s.ai_api_session_ids
    → adopt_legacy_id s ≡ (s, false)
unfolding adopt_legacy_id adopt_from
adopt_current s h = elim (Bool-cases (is_empty s.ai_api_session_ids)) [
  | inl e ↦
      let none_left : first_id s.ai_api_session_ids ≡ none = empty-first s.ai_api_session_ids e in
      let no_id : s.ai_api_session_id ≡ none = h ∙ none_left in rw (e, no_id) refl
  | inr e ↦ rw e refl
]
  where
    empty-first : (ids : List Text) → is_empty ids ≡ true → first_id ids ≡ none
    empty-first [] e = refl
    empty-first (id ∷ ids) e = absurd (ground arith)

-- Migrating current data changes nothing and reports no change.
pub migrate_vault_data-eq_self :
    (now : Text) (v : VaultData) → IsCurrent v → migrate_vault_data now v ≡ (v, false)
unfolding migrate_vault_data
migrate_vault_data-eq_self now v c =
    let s = v.settings in
    let raised : raise_version v ≡ (v, false) = unfold raise_version in ground (arith, c.recent) in
    let mirrored : mirror_legacy_id s ≡ (s, false) =
      unfold mirror_legacy_id in
      rw (c.mirrored, same_option_refl (first_id s.ai_api_session_ids)) refl in
    let stopped : stop_auto_start s ≡ (s, false) = unfold stop_auto_start in rw c.guarded refl in
    rw (raised, adopt_current s c.mirrored) (rw mirrored (rw stopped refl))
