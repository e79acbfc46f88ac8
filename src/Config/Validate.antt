-- ===== src/Config/Validate.antt =====
-- The checks on input of src-tauri/src/config.rs. A check is `ok` or an error; the error's text that
-- names an entry is its beginning and the entry's id.
use hlem_ssh.Prelude.{
  ℕ, Bool, true, false, not, ◌&&◌, ◌||◌, List, [], ◌∷◌, Option, none, some, String, ◌==◌, ltb, leb,
  length, any, count_if, if◌then◌else◌, is_none,
}
use hlem_ssh.Prelude.Text.{codes}
use hlem_ssh.Prelude.Chars.{Text, is_empty, same_text, contains_text, trim}
use hlem_ssh.Config.Data.{
  VaultData, SessionGroup, SessionConfig, GroupInput, SessionInput, TunnelInput, SshProxyOptions,
}
use hlem_ssh.Config.Vault.{default_group_id, is_default_group_id, same_option}

-- Of the program's errors, those that the checks and the vault's operations give here.
pub data AppError : Type 0 where
  invalid_input : String → AppError
  not_found : String → Text → AppError
  vault_locked : AppError

pub data AppResult {ℓ} (A : Type ℓ) : Type ℓ where
  ok : A → AppResult A
  err : AppError → AppResult A

abbrev pub Checked : Type 0
Checked = AppResult (Unit {0})

abbrev pub valid : Checked
valid = AppResult.ok tt

-- `if bad { return Err(error); }`, then the rest.
abbrev pub unless : Bool → AppError → Checked → Checked
unless bad error rest = if bad then AppResult.err error else rest

-- `first?;`, then the rest.
abbrev pub then_check : Checked → Checked → Checked
then_check (AppResult.ok u) rest = rest
then_check (AppResult.err error) rest = AppResult.err error

abbrev invalid : String → AppError
invalid = AppError.invalid_input

abbrev pub has_group : List SessionGroup → Text → Bool
has_group groups id = any (λ (group : SessionGroup). same_text group.id id) groups

abbrev pub has_session : List SessionConfig → Text → Bool
has_session sessions id = any (λ (session : SessionConfig). same_text session.id id) sessions

abbrev group_name_max_han_chars : ℕ
group_name_max_han_chars = 8

abbrev group_name_max_chars : ℕ
group_name_max_chars = 10

abbrev pub group_custom_max_count : ℕ
group_custom_max_count = 10

abbrev in_range : ℕ → ℕ → ℕ → Bool
in_range c lo hi = leb lo c && leb c hi

unfoldable pub is_han_char : ℕ → Bool
is_han_char c =
    in_range c 0x3400 0x4dbf
    || in_range c 0x4e00 0x9fff
    || in_range c 0xf900 0xfaff
    || in_range c 0x20000 0x2a6df
    || in_range c 0x2a700 0x2ebef
    || in_range c 0x30000 0x3134f

unfoldable pub validate_group_name_length : Text → Checked
validate_group_name_length name =
    unless
      (ltb group_name_max_han_chars (count_if is_han_char name)
        || ltb group_name_max_chars (length name))
      (invalid "分组名称不能超过 8 个汉字或 10 个字符") valid

unfoldable pub custom_group_count : VaultData → ℕ
custom_group_count v =
    let default_id = default_group_id v in
    count_if (λ (group : SessionGroup). not (same_option (some group.id) default_id)) v.groups

is_own_default : VaultData → Option Text → Bool
is_own_default v none = false
is_own_default v (some group_id) = is_default_group_id v group_id

check_parent : VaultData → Option Text → Option Text → Checked
check_parent v group_id none = valid
check_parent v group_id (some parent_id) =
    unless (same_option (some parent_id) group_id) (invalid "分组不能把自己设为上级")
      (unless (not (has_group v.groups parent_id)) (AppError.not_found "上级分组 " parent_id) valid)

unfoldable pub validate_group_input : VaultData → Option Text → GroupInput → Checked
unfolding is_own_default check_parent validate_group_name_length custom_group_count
validate_group_input v group_id input = unless (is_own_default v group_id) (invalid "默认分组不允许重命名") (
    unless (is_empty (trim input.name)) (invalid "分组名称不能为空") (
      then_check (validate_group_name_length (trim input.name)) (
        unless (is_none group_id && leb group_custom_max_count (custom_group_count v))
          (invalid "自定义分组最多 10 个") (check_parent v group_id input.parent_id))))

unfoldable pub validate_proxy_fields : Bool → Text → Text → ℕ → Checked
validate_proxy_fields enabled kind host port =
    if not enabled
    then valid
    else unless (not (contains_text (codes "socks5" ∷ codes "httpConnect" ∷ []) kind))
        (invalid "代理类型无效")
        (unless (is_empty (trim host)) (invalid "代理主机不能为空")
          (unless (port == 0) (invalid "代理端口必须在 1-65535 之间") valid))

unfoldable pub validate_ssh_proxy : SshProxyOptions → Checked
unfolding validate_proxy_fields
validate_ssh_proxy proxy =
    if same_text proxy.kind (codes "direct")
    then valid
    else validate_proxy_fields true proxy.kind proxy.host proxy.port

unfoldable pub check_group : VaultData → Option Text → Checked
check_group v none = valid
check_group v (some group_id) =
    unless (not (has_group v.groups group_id)) (AppError.not_found "分组 " group_id) valid

unfoldable pub check_ssh_proxy : Option SshProxyOptions → Checked
unfolding validate_ssh_proxy
check_ssh_proxy none = valid
check_ssh_proxy (some proxy) = validate_ssh_proxy proxy

-- Another session has the name.
abbrev pub name_taken : List SessionConfig → Option Text → Text → Bool
name_taken sessions session_id name =
    any
      (λ (session : SessionConfig).
        not (same_option (some session.id) session_id) && same_text session.name name)
      sessions

unfoldable pub validate_session_input : VaultData → Option Text → SessionInput → Checked
unfolding check_group check_ssh_proxy
validate_session_input v session_id input =
    unless (is_empty (trim input.name)) (invalid "会话名称不能为空") (
      unless (is_empty (trim input.host)) (invalid "主机地址不能为空") (
        unless (input.port == 0) (invalid "端口必须在 1-65535 之间") (
          unless (is_empty (trim input.username)) (invalid "用户名不能为空") (
            then_check (check_group v input.group_id) (
              unless (name_taken v.sessions session_id (trim input.name)) (invalid "会话名称不能重复")
                (check_ssh_proxy input.ssh.proxy))))))

unfoldable pub validate_tunnel_input : VaultData → TunnelInput → Checked
validate_tunnel_input v input = unless (is_empty (trim input.name)) (invalid "隧道名称不能为空") (
    unless (not (has_session v.sessions input.session_id))
      (AppError.not_found "会话 " input.session_id)
      (unless
        (not (
          contains_text (codes "local" ∷ codes "remote" ∷ codes "dynamic" ∷ []) input.forward_type))
        (invalid "隧道类型无效")
        (unless (is_empty (trim input.bind_host)) (invalid "监听地址不能为空") (
          if same_text input.forward_type (codes "dynamic")
          then valid
          else unless (is_empty (trim input.target_host)) (invalid "目标地址不能为空")
              (unless (input.target_port == 0) (invalid "目标端口必须在 1-65535 之间") valid)))))
