-- ===== src/Config/Store.antt =====
-- The operations of `VaultStore` (src-tauri/src/vault.rs) that edit groups, sessions and tunnels. The
-- closure that an operation gives to `mutate` is a function of its own here. `id` and `now` are the
-- fresh UUID and the time that it reads.
pub mod Mutate
pub mod Links
pub mod Preferences
pub mod Hosts
pub mod Records
use hlem_ssh.Prelude.{
  ℕ, Bool, true, false, not, ◌&&◌, ◌||◌, List, [], ◌∷◌, ◌++◌, Option, none, some, ◌==◌, ◌%◌, ◌^◌,
  length, any, map, keep_if, if◌then◌else◌,
}
use hlem_ssh.Prelude.Words.{saturating_add}
use hlem_ssh.Prelude.Chars.{Text, is_empty, same_text}
use hlem_ssh.Config.Data.{
  VaultData, SessionGroup, SessionConfig, TunnelConfig, GroupInput, SessionInput, TunnelInput,
  AppSettings,
}
use hlem_ssh.Config.Group
use hlem_ssh.Config.Session
use hlem_ssh.Config.Tunnel
use hlem_ssh.Config.Vault.{default_group_id, is_default_group_id, same_option, first_id}
use hlem_ssh.Config.Validate.{
  AppError, AppResult, Checked, validate_group_input, validate_session_input, validate_tunnel_input,
  has_session,
}

abbrev pub Edited : Type 0
Edited = AppResult VaultData

-- `check?;`, then the changed data.
abbrev pub after_check : Checked → Edited → Edited
after_check (AppResult.ok u) edited = edited
after_check (AppResult.err error) edited = AppResult.err error

-- `iter_mut().find(..)` and a change of what is found.
abbrev pub update_first {ℓ} : {A : Type ℓ} → (A → Bool) → (A → A) → List A → Option (List A)
update_first p f [] = none
update_first p f (x ∷ xs) =
    if p x
    then some (f x ∷ xs)
    else elim (update_first p f xs) [ none ↦ none | some ys ↦ some (x ∷ ys) ]

-- `.ok_or_else(..)?` on what was found.
abbrev pub or_missing {ℓ} : {A : Type ℓ} → AppError → (A → VaultData) → Option A → Edited
or_missing error f none = AppResult.err error
or_missing error f (some a) = AppResult.ok (f a)

unfoldable pub create_group : Text → Text → GroupInput → VaultData → Edited
create_group id now input v = after_check (validate_group_input v none input) (
    AppResult.ok
      (record v { groups = v.groups ++ Group.new id now input (length v.groups % 2 ^ 32) ∷ [] }))

unfoldable pub update_group : Text → Text → GroupInput → VaultData → Edited
update_group now group_id input v = after_check (validate_group_input v (some group_id) input) (
    or_missing (AppError.not_found "分组 " group_id) (λ groups. record v { groups = groups })
      (update_first (λ (g : SessionGroup). same_text g.id group_id) (Group.update now input)
        v.groups))

-- `retain` by what is not the id.
abbrev pub without_group : Text → List SessionGroup → List SessionGroup
without_group id groups = keep_if (λ (g : SessionGroup). not (same_text g.id id)) groups

abbrev pub clear_parent : Text → SessionGroup → SessionGroup
clear_parent group_id g =
    if same_option g.parent_id (some group_id) then record g { parent_id = none } else g

abbrev pub move_session : Text → Option Text → SessionConfig → SessionConfig
move_session group_id default_id s =
    if same_option s.group_id (some group_id) then record s { group_id = default_id } else s

unfoldable pub delete_group : Text → VaultData → Edited
delete_group group_id v =
    let default_id = default_group_id v in
    let kept = without_group group_id v.groups in
    if is_default_group_id v group_id
    then AppResult.err (AppError.invalid_input "默认分组不允许删除")
    else if length v.groups == length kept
    then AppResult.err (AppError.not_found "分组 " group_id)
    else AppResult.ok (record v {
      groups = map (clear_parent group_id) kept;
      sessions = map (move_session group_id default_id) v.sessions;
      settings = record (v.settings) {
        collapsed_connection_section_ids =
            keep_if (λ (t : Text). not (same_text t group_id))
              v.settings.collapsed_connection_section_ids;
      };
    })

unfoldable pub create_session : Text → Text → SessionInput → VaultData → Edited
create_session id now input v =
    after_check (validate_session_input v none input)
      (AppResult.ok (record v { sessions = v.sessions ++ Session.new id now input ∷ [] }))

-- The session of an id, changed.
abbrev pub on_session : Text → (SessionConfig → SessionConfig) → VaultData → Edited
on_session session_id f v =
    or_missing (AppError.not_found "会话 " session_id) (λ sessions. record v { sessions = sessions })
      (update_first (λ (s : SessionConfig). same_text s.id session_id) f v.sessions)

unfoldable pub update_session : Text → Text → SessionInput → VaultData → Edited
update_session now session_id input v =
    after_check (validate_session_input v (some session_id) input)
      (on_session session_id (Session.update now input) v)

unfoldable pub set_session_favorite : Text → Text → Bool → VaultData → Edited
set_session_favorite now session_id favorite v =
    on_session session_id (λ s. record s { favorite = favorite; updated_at = now }) v

unfoldable pub mark_session_recent : Text → Text → VaultData → Edited
mark_session_recent now session_id v =
    on_session session_id
      (λ s. record s {
        last_connected_at = some now;
        connection_count = saturating_add s.connection_count 1;
      })
      v

unfoldable pub clear_session_recent : Text → VaultData → Edited
clear_session_recent session_id v =
    on_session session_id (λ s. record s { last_connected_at = none; connection_count = 0 }) v

-- The old field is a fallback for an empty list, unless it names the deleted session.
fallback_ids : Text → List SessionConfig → List Text → Option Text → List Text
fallback_ids session_id sessions ids none = ids
fallback_ids session_id sessions ids (some legacy_id) =
    if is_empty ids && not (same_text legacy_id session_id) && has_session sessions legacy_id
    then legacy_id ∷ []
    else ids

unfoldable pub without_authorization : Text → List SessionConfig → AppSettings → AppSettings
unfolding fallback_ids
without_authorization session_id sessions s =
    let retained = keep_if (λ (t : Text). not (same_text t session_id)) s.ai_api_session_ids in
    let ids = fallback_ids session_id sessions retained s.ai_api_session_id in
    record s {
      ai_api_session_ids = ids;
      ai_api_session_id = first_id ids;
      ai_api_auto_start = if is_empty ids then false else s.ai_api_auto_start;
    }

abbrev pub without_session : Text → List SessionConfig → List SessionConfig
without_session id sessions = keep_if (λ (s : SessionConfig). not (same_text s.id id)) sessions

unfoldable pub delete_session : Text → VaultData → Edited
delete_session session_id v =
    let kept = without_session session_id v.sessions in
    if length v.sessions == length kept
    then AppResult.err (AppError.not_found "会话 " session_id)
    else AppResult.ok (record v {
      sessions = kept;
      tunnels = keep_if (λ (t : TunnelConfig). not (same_text t.session_id session_id)) v.tunnels;
      settings = without_authorization session_id kept v.settings;
    })

unfoldable pub create_tunnel : Text → Text → TunnelInput → VaultData → Edited
create_tunnel id now input v =
    after_check (validate_tunnel_input v input)
      (AppResult.ok (record v { tunnels = v.tunnels ++ Tunnel.new id now input ∷ [] }))

abbrev pub on_tunnel : Text → (TunnelConfig → TunnelConfig) → VaultData → Edited
on_tunnel tunnel_id f v =
    or_missing (AppError.not_found "隧道 " tunnel_id) (λ tunnels. record v { tunnels = tunnels })
      (update_first (λ (t : TunnelConfig). same_text t.id tunnel_id) f v.tunnels)

unfoldable pub update_tunnel : Text → Text → TunnelInput → VaultData → Edited
update_tunnel now tunnel_id input v =
    after_check (validate_tunnel_input v input) (on_tunnel tunnel_id (Tunnel.update now input) v)

unfoldable pub enable_tunnel : Text → Text → Bool → VaultData → Edited
enable_tunnel now tunnel_id enabled v =
    on_tunnel tunnel_id (λ t. record t { enabled = enabled; updated_at = now }) v

unfoldable pub delete_tunnel : Text → VaultData → Edited
delete_tunnel tunnel_id v =
    let kept = keep_if (λ (t : TunnelConfig). not (same_text t.id tunnel_id)) v.tunnels in
    if length v.tunnels == length kept
    then AppResult.err (AppError.not_found "隧道 " tunnel_id)
    else AppResult.ok (record v { tunnels = kept })
