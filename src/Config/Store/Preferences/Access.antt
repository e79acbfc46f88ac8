-- ===== src/Config/Store/Preferences/Access.antt =====
-- What an accepted update of the local interface's settings (src-tauri/src/vault.rs) stores.
use hlem_ssh.Prelude.{
  ◌⊎◌, ◌<◌, ◌≤◌, ◌≡◌, refl, ◌∙◌, true, false, not, ◌&&◌, ◌||◌, List, [], ◌∷◌, ◌++◌, leb, length,
  map, is_none, arith, if_cases, All, All-append, inl, inr, length-append,
}
use hlem_ssh.Prelude.Chars.{Text, is_empty, contains_text, trim}
use hlem_ssh.Config.Data.{VaultData, AppSettings}
use hlem_ssh.Config.Vault.{first_id}
use hlem_ssh.Config.Validate.{AppError, AppResult, Checked, has_session}
use hlem_ssh.Config.Settings.{validate_settings}
use hlem_ssh.Config.Tags.{Distinct}
use hlem_ssh.Config.Tags.Laws.{contains-append, Distinct-append, same-contains, same-is_empty}
use hlem_ssh.Config.Store.{Edited}
use hlem_ssh.Config.Store.Preferences.{
  AiApiSettingsUpdate, max_ai_sessions, collect_ids, is_low_port, authorize_ids, with_settings,
  settings_ai_api_update,
}

AppResult-cases :
    (c : Checked) → (c ≡ AppResult.ok tt) ⊎ ((error : AppError) × (c ≡ AppResult.err error))
AppResult-cases (AppResult.ok tt) = inl refl
AppResult-cases (AppResult.err error) = inr (error, refl)

abbrev Exists : VaultData → Text → Type 0
Exists v id = has_session v.sessions id ≡ true

-- Ids of sessions that exist, none twice, and not too many.
pub record IsSelection (v : VaultData) (ids : List Text) : Type 0 where
  pub existing : All (Exists v) ids
  pub distinct : Distinct ids
  pub few : length ids ≤ max_ai_sessions

-- What a run of the loop gives: a selection, of what it had and of the trimmed texts.
abbrev pub Selects : VaultData → List Text → List Text → AppResult (List Text) → Type 0
Selects v before given (AppResult.err error) = Unit
Selects v before given (AppResult.ok ids) =
    IsSelection v ids
    × ((t : Text)
        → contains_text ids t
          ≡ (contains_text before t || (not (is_empty t) && contains_text (map trim given) t)))

more :
    (v : VaultData) (ids : List Text) (id : Text)
    → IsSelection v ids
    → length ids < max_ai_sessions
    → contains_text ids id ≡ false
    → has_session v.sessions id ≡ true
    → IsSelection v (ids ++ id ∷ [])
more v ids id s room new there = record {
  existing = All-append (Exists v) ids (id ∷ []) s.existing (there, tt);
  distinct = Distinct-append ids id s.distinct new;
  few = omega (arith, length-append ids (id ∷ []), room);
}

skipped :
    (v : VaultData) (ids given : List Text) (text : Text) (result : AppResult (List Text))
    → (is_empty (trim text) || contains_text ids (trim text)) ≡ true
    → Selects v ids given result
    → Selects v ids (text ∷ given) result
skipped v ids given text (AppResult.err error) e h = tt
skipped v ids given text (AppResult.ok found) e h =
    (h.0, λ t. h.1 t ∙ ground (arith, same-is_empty t (trim text), same-contains ids t (trim text)))

added :
    (v : VaultData) (ids given : List Text) (text : Text) (result : AppResult (List Text))
    → is_empty (trim text) ≡ false
    → Selects v (ids ++ trim text ∷ []) given result
    → Selects v ids (text ∷ given) result
added v ids given text (AppResult.err error) e h = tt
added v ids given text (AppResult.ok found) e h = (
  h.0,
  λ t. h.1 t ∙ ground (arith, contains-append ids (trim text ∷ []) t, same-is_empty t (trim text)),
)

pub collect_ids-Selects :
    (v : VaultData) (ids given : List Text)
    → IsSelection v ids
    → Selects v ids given (collect_ids v ids given)
unfolding collect_ids
collect_ids-Selects v ids [] s = (s, λ t. ground arith)
collect_ids-Selects v ids (text ∷ given) s =
    let id = trim text in
    if_cases (Selects v ids (text ∷ given)) (is_empty id || contains_text ids id) _ _
      (λ e. skipped v ids given text _ e (collect_ids-Selects v ids given s))
      λ e.
        if_cases (Selects v ids (text ∷ given)) (leb max_ai_sessions (length ids)) _ _ (λ _. tt)
          λ room.
            if_cases (Selects v ids (text ∷ given)) (not (has_session v.sessions id)) _ _ (λ _. tt)
              λ there. added v ids given text _ (ground (arith, e)) (
                collect_ids-Selects v (ids ++ id ∷ []) given
                  (more v ids id s (ground arith) (ground (arith, e)) (ground arith)))

-- The settings that an update leaves: its sessions, and what starts without being asked.
pub record IsAccess (update : AiApiSettingsUpdate) (v : VaultData) : Type 0 where
  pub selection : IsSelection v v.settings.ai_api_session_ids
  pub asked :
      (t : Text)
      → contains_text v.settings.ai_api_session_ids t
        ≡ (not (is_empty t) && contains_text (map trim update.session_ids) t)
  pub mirrored : v.settings.ai_api_session_id ≡ first_id v.settings.ai_api_session_ids
  pub open_port : is_low_port v.settings.ai_api_port ≡ false
  pub startable :
      v.settings.ai_api_auto_start ≡ true
      → (is_empty v.settings.ai_api_session_ids ≡ false) × (is_none v.settings.ai_api_port ≡ false)

-- What an update gives has such settings, if it gives anything.
abbrev pub Gives : AiApiSettingsUpdate → Edited → Type 0
Gives update (AppResult.err error) = Unit
Gives update (AppResult.ok v) = IsAccess update v

with_settings-Gives :
    (update : AiApiSettingsUpdate) (settings : AppSettings) (v : VaultData)
    → IsAccess update (record v { settings = settings })
    → Gives update (with_settings settings v)
with_settings-Gives update settings v h = elim (AppResult-cases (validate_settings settings)) [
  | inl e ↦ rw e h
  | inr (error, e) ↦ rw e tt
]

-- The settings of an update, with the selected ids.
abbrev with_access : AiApiSettingsUpdate → List Text → VaultData → AppSettings
with_access update ids v = record (v.settings) {
  ai_api_session_id = first_id ids;
  ai_api_session_ids = ids;
  ai_api_port = update.port;
  ai_api_auto_start = update.auto_start;
}

authorize_ids-Gives :
    (update : AiApiSettingsUpdate) (v : VaultData) (result : AppResult (List Text))
    → is_low_port update.port ≡ false
    → Selects v [] update.session_ids result
    → Gives update (authorize_ids update v result)
unfolding authorize_ids
authorize_ids-Gives update v (AppResult.err error) port h = tt
authorize_ids-Gives update v (AppResult.ok ids) port (selection, asked) =
    if_cases (Gives update) (update.auto_start && (is_empty ids || is_none update.port)) _ _
      (λ _. tt)
      λ e. with_settings-Gives update (with_access update ids v) v (record {
        selection = record {
          existing = selection.existing;
          distinct = selection.distinct;
          few = selection.few;
        };
        asked = asked;
        mirrored = refl;
        open_port = port;
        startable = λ start. (ground arith, ground arith);
      })

-- An accepted update of the local interface authorises at most 20 sessions, which exist and are all
-- different, and exactly the given texts after trimming, the empty ones left out; the old field
-- holds the first of them; the port is not below 1024; and the interface starts by itself only with
-- a port and at least one session.
pub settings_ai_api_update-Gives :
    (update : AiApiSettingsUpdate) (v : VaultData) → Gives update (settings_ai_api_update update v)
unfolding settings_ai_api_update
settings_ai_api_update-Gives update v =
    if_cases (Gives update) (is_low_port update.port) _ _ (λ _. tt)
      λ port. authorize_ids-Gives update v _ port (
        collect_ids-Selects v [] update.session_ids
          (record { existing = tt; distinct = tt; few = omega arith }))
