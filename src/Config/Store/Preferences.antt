-- ===== src/Config/Store/Preferences.antt =====
-- The operations of `VaultStore` (src-tauri/src/vault.rs) that edit the settings. Where an operation
-- checks its input before `mutate`, the closure that it gives to `mutate` has a name of its own.
pub mod Access
pub mod Commands
pub mod Put
use hlem_ssh.Prelude.{
  ℕ, zero, suc, ◌+◌, ◌-◌, ◌<◌, ◌≤◌, max, ◌≡◌, refl, sym, ap, ◌∙◌, Bool, true, false, not, ◌&&◌,
  ◌||◌, List, [], ◌∷◌, ◌++◌, Option, none, some, ◌==◌, ltb, leb, length, any, map, drop, keep_if,
  count_if, if◌then◌else◌, is_none,
}
use hlem_ssh.Prelude.Text.{codes, codes_lt}
use hlem_ssh.Prelude.Chars.{Text, is_empty, same_text, contains_text, trim}
use hlem_ssh.Config.Data.{
  VaultData, AppSettings, AppProxyOptions, QuickCommand, ConfigSnapshot, SessionGroup,
}
use hlem_ssh.Config.Vault.{first_id}
use hlem_ssh.Config.Validate.{AppError, AppResult, Checked, has_group, has_session}
use hlem_ssh.Config.Settings.{validate_settings, validate_collapsed_connection_section_ids}
use hlem_ssh.Config.Store.{
  length, none, ◌==◌, not, ◌||◌, [], ◌&&◌, same_text, keep_if, some, ◌∷◌, is_empty, false, ◌++◌,
  Bool, if◌then◌else◌, List, Text, ℕ, Option, Edited, after_check, update_first,
}
use hlem_ssh.Config.Store.Mutate.{VaultStore, mutate}

-- The closure's last line: the changed settings are checked as a whole.
abbrev pub with_settings : AppSettings → VaultData → Edited
with_settings settings v =
    after_check (validate_settings settings) (AppResult.ok (record v { settings = settings }))

unfoldable pub settings_proxy_update : Option AppProxyOptions → VaultData → Edited
settings_proxy_update proxy v = with_settings (record (v.settings) { proxy = proxy }) v

unfoldable pub settings_ai_api_key_update : Option Text → VaultData → Edited
settings_ai_api_key_update api_key v =
    with_settings (record (v.settings) { ai_api_key = api_key }) v

abbrev pub max_quick_commands : ℕ
max_quick_commands = 100

-- `push`, then `drain` of what is too many at the front.
unfoldable pub push_command : QuickCommand → List QuickCommand → List QuickCommand
push_command command commands =
    let pushed = commands ++ command ∷ [] in
    if ltb max_quick_commands (length pushed)
    then drop (length pushed - max_quick_commands) pushed
    else pushed

abbrev pub or_push :
    QuickCommand → List QuickCommand → Option (List QuickCommand) → List QuickCommand
or_push command commands none = push_command command commands
or_push command commands (some replaced) = replaced

unfoldable pub put_command : QuickCommand → List QuickCommand → List QuickCommand
put_command command commands =
    or_push command commands
      (update_first (λ (c : QuickCommand). same_text c.id command.id) (λ c. command) commands)

unfoldable pub trim_command : QuickCommand → QuickCommand
trim_command c = record c { id = trim c.id; name = trim c.name; command = trim c.command }

unfoldable pub store_command : QuickCommand → VaultData → Edited
store_command command v =
    with_settings
      (record (v.settings) { quick_commands = put_command command v.settings.quick_commands }) v

unfoldable pub remove_command : Text → VaultData → Edited
remove_command command_id v =
    let commands = v.settings.quick_commands in
    let kept = keep_if (λ (c : QuickCommand). not (same_text c.id command_id)) commands in
    if length kept == length commands
    then AppResult.err (AppError.not_found "常用命令 " command_id)
    else with_settings (record (v.settings) { quick_commands = kept }) v

unfoldable pub ignore_version : Text → VaultData → Edited
ignore_version version v =
    let versions = v.settings.ignored_update_versions in
    with_settings
      (record (v.settings) {
        ignored_update_versions =
            if contains_text versions version then versions else versions ++ version ∷ [];
      })
      v

-- `trim_start_matches(['v', 'V'])`
unfoldable pub without_v : Text → Text
without_v [] = []
without_v (c ∷ text) =
    let rest = without_v text in if c == 0x76 || c == 0x56 then rest else c ∷ text

-- The answer of an operation on the store, with the store after it.
abbrev pub Answer : Type 0
Answer = AppResult ConfigSnapshot × VaultStore

-- An operation whose input is refused before `mutate`.
abbrev pub mutate_unless :
    Bool → AppError → (VaultData → Checked) → Text → (VaultData → Edited) → VaultStore → Answer
mutate_unless bad error save now edit store =
    if bad then (AppResult.err error, store) else mutate save now edit store

unfoldable pub quick_command_upsert :
    (VaultData → Checked) → Text → QuickCommand → VaultStore → Answer
quick_command_upsert save now command store =
    let trimmed = trim_command command in
    mutate_unless (is_empty trimmed.id) (AppError.invalid_input "常用命令 ID 不能为空") save now
      (store_command trimmed) store

unfoldable pub quick_command_delete : (VaultData → Checked) → Text → Text → VaultStore → Answer
quick_command_delete save now command_id store =
    let trimmed = trim command_id in
    mutate_unless (is_empty trimmed) (AppError.invalid_input "常用命令 ID 不能为空") save now
      (remove_command trimmed) store

unfoldable pub settings_ignore_update_version :
    (VaultData → Checked) → Text → Text → VaultStore → Answer
settings_ignore_update_version save now version store =
    let trimmed = without_v (trim version) in
    mutate_unless (is_empty trimmed) (AppError.invalid_input "忽略版本不能为空") save now
      (ignore_version trimmed) store

abbrev pub allowed_builtin : List Text
allowed_builtin = codes "favorites" ∷ codes "recent" ∷ codes "ungrouped" ∷ codes "all" ∷ []

-- The loop over the ids, with those kept so far.
unfoldable pub normalize_sections : List SessionGroup → List Text → List Text → List Text
normalize_sections groups normalized [] = normalized
normalize_sections groups normalized (section ∷ rest) =
    let section_id = trim section in
    let allowed = contains_text allowed_builtin section_id || has_group groups section_id in
    normalize_sections groups
      (if allowed && not (contains_text normalized section_id)
        then normalized ++ section_id ∷ []
        else normalized)
      rest

unfoldable pub connection_section_state_update : List Text → VaultData → Edited
connection_section_state_update collapsed_section_ids v =
    let normalized = normalize_sections v.groups [] collapsed_section_ids in
    after_check (validate_collapsed_connection_section_ids normalized) (
      AppResult.ok (record v {
        settings = record (v.settings) { collapsed_connection_section_ids = normalized };
      }))

pub record AiApiSettingsUpdate : Type 0 where
  pub session_ids : List Text
  pub port : Option ℕ
  pub auto_start : Bool

abbrev pub max_ai_sessions : ℕ
max_ai_sessions = 20

-- The loop over the ids, with those accepted so far.
unfoldable pub collect_ids : VaultData → List Text → List Text → AppResult (List Text)
collect_ids v session_ids [] = AppResult.ok session_ids
collect_ids v session_ids (given ∷ rest) =
    let session_id = trim given in
    if is_empty session_id || contains_text session_ids session_id
    then collect_ids v session_ids rest
    else if leb max_ai_sessions (length session_ids)
    then AppResult.err (AppError.invalid_input "AI API 最多允许 20 个会话")
    else if not (has_session v.sessions session_id)
    then AppResult.err (AppError.not_found "会话 " session_id)
    else collect_ids v (session_ids ++ session_id ∷ []) rest

abbrev pub is_low_port : Option ℕ → Bool
is_low_port none = false
is_low_port (some port) = ltb port 1024

unfoldable pub authorize_ids : AiApiSettingsUpdate → VaultData → AppResult (List Text) → Edited
authorize_ids settings v (AppResult.err error) = AppResult.err error
authorize_ids settings v (AppResult.ok session_ids) =
    if settings.auto_start && (is_empty session_ids || is_none settings.port)
    then AppResult.err (AppError.invalid_input "AI API 自动启动需要端口和至少一个授权会话")
    else with_settings
        (record (v.settings) {
          ai_api_session_id = first_id session_ids;
          ai_api_session_ids = session_ids;
          ai_api_port = settings.port;
          ai_api_auto_start = settings.auto_start;
        })
        v

unfoldable pub settings_ai_api_update : AiApiSettingsUpdate → VaultData → Edited
settings_ai_api_update settings v =
    if is_low_port settings.port
    then AppResult.err (AppError.invalid_input "AI API 端口必须在 1024-65535 之间")
    else authorize_ids settings v (collect_ids v [] settings.session_ids)
