-- ===== src/Config/Vault.antt =====
-- `VaultData` of src-tauri/src/config.rs: the whole stored configuration, and its migration from
-- older versions. `id` and `now` are the fresh UUID and the times that a call reads.
pub mod Migrate
use hlem_ssh.Prelude.{
  ℕ, Bool, true, false, not, ◌&&◌, ◌||◌, List, [], ◌∷◌, ◌++◌, Option, none, some, ◌==◌, ltb,
  if◌then◌else◌,
}
use hlem_ssh.Prelude.Text.{codes}
use hlem_ssh.Prelude.Chars.{Text, is_empty, same_text, trim}
use hlem_ssh.Config.Data.{VaultData, SessionGroup, AppSettings}
use hlem_ssh.Config.Defaults.{default_app_settings}
use hlem_ssh.Config.Group

abbrev pub vault_data_version : ℕ
vault_data_version = 2

abbrev pub default_group_name : Text
default_group_name = codes "默认分组"

unfoldable pub empty : Text → VaultData
empty now = record {
  version = vault_data_version;
  groups = [];
  sessions = [];
  known_hosts = [];
  settings = default_app_settings;
  tunnels = [];
  backup_records = [];
  updated_at = now;
}

unfoldable pub touch : Text → VaultData → VaultData
touch now v = record v { updated_at = now }

-- The times of `empty()`, of the group, and of the last `touch()`.
unfoldable pub with_default_group : Text → Text → Text → Text → VaultData
with_default_group id at_start at_group now =
    let v = empty at_start in
    let group = Group.new id at_group (record { name = default_group_name; parent_id = none }) 0 in
    touch now (record v { groups = v.groups ++ group ∷ [] })

-- `groups.iter().find(|group| group.sort_order == 0)`
unfoldable pub find_default : List SessionGroup → Option SessionGroup
find_default [] = none
find_default (group ∷ groups) = if group.sort_order == 0 then some group else find_default groups

abbrev pub first_group : List SessionGroup → Option SessionGroup
first_group [] = none
first_group (group ∷ groups) = some group

abbrev pub or_else {ℓ} : {A : Type ℓ} → Option A → Option A → Option A
or_else none b = b
or_else (some a) b = some a

abbrev pub group_id_of : Option SessionGroup → Option Text
group_id_of none = none
group_id_of (some group) = some group.id

unfoldable pub default_group_id : VaultData → Option Text
default_group_id v = group_id_of (or_else (find_default v.groups) (first_group v.groups))

-- `==` on `Option<&str>`
abbrev pub same_option : Option Text → Option Text → Bool
same_option none none = true
same_option (some a) (some b) = same_text a b
same_option _ _ = false

unfoldable pub is_default_group_id : VaultData → Text → Bool
is_default_group_id v group_id = same_option (default_group_id v) (some group_id)

-- Each step of the migration gives the new data and whether it changed anything.
unfoldable pub raise_version : VaultData → VaultData × Bool
raise_version v =
    if ltb v.version vault_data_version
    then (record v { version = vault_data_version }, true)
    else (v, false)

abbrev pub usable_id : Option Text → Option Text
usable_id none = none
usable_id (some id) =
    let session_id = trim id in if is_empty session_id then none else some session_id

adopt_from : Option Text → AppSettings → AppSettings × Bool
adopt_from none s = (s, false)
adopt_from (some session_id) s = (record s { ai_api_session_ids = session_id ∷ [] }, true)

unfoldable pub adopt_legacy_id : AppSettings → AppSettings × Bool
unfolding adopt_from
adopt_legacy_id s =
    if is_empty s.ai_api_session_ids
    then adopt_from (usable_id s.ai_api_session_id) s
    else (s, false)

abbrev pub first_id : List Text → Option Text
first_id [] = none
first_id (id ∷ ids) = some id

unfoldable pub mirror_legacy_id : AppSettings → AppSettings × Bool
mirror_legacy_id s =
    let normalized_legacy_id = first_id s.ai_api_session_ids in
    if not (same_option s.ai_api_session_id normalized_legacy_id)
    then (record s { ai_api_session_id = normalized_legacy_id }, true)
    else (s, false)

unfoldable pub stop_auto_start : AppSettings → AppSettings × Bool
stop_auto_start s =
    if is_empty s.ai_api_session_ids && s.ai_api_auto_start
    then (record s { ai_api_auto_start = false }, true)
    else (s, false)

unfoldable pub migrate_vault_data : Text → VaultData → VaultData × Bool
migrate_vault_data now v =
    let (raised, c1) = raise_version v in
    let (adopted, c2) = adopt_legacy_id raised.settings in
    let (mirrored, c3) = mirror_legacy_id adopted in
    let (settings, c4) = stop_auto_start mirrored in
    let changed = c1 || c2 || c3 || c4 in
    let next = record raised { settings = settings } in
    (if changed then touch now next else next, changed)
