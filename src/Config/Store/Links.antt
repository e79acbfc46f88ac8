-- ===== src/Config/Store/Links.antt =====
-- References between entries of the configuration (src-tauri/src/config.rs): a session's group, a
-- tunnel's session.
pub mod Lemmas
pub mod Groups
pub mod Sessions
pub mod Edits
use hlem_ssh.Prelude.{
  ℕ, ◌≡◌, refl, ap, ◌∙◌, Bool, true, false, not, List, [], ◌∷◌, ◌++◌, Option, none, some, All,
  arith, any,
}
use hlem_ssh.Prelude.Chars.{Text, same_text}
use hlem_ssh.Config.Data.{
  VaultData, SessionGroup, SessionConfig, TunnelConfig, GroupInput, SessionInput, TunnelInput,
}
use hlem_ssh.Config.Validate.{AppResult, has_group, has_session}

abbrev pub group_exists : List SessionGroup → Option Text → Bool
group_exists groups none = true
group_exists groups (some id) = has_group groups id

abbrev pub Grouped : List SessionGroup → SessionConfig → Type 0
Grouped groups s = group_exists groups s.group_id ≡ true

abbrev pub Owned : List SessionConfig → TunnelConfig → Type 0
Owned sessions t = has_session sessions t.session_id ≡ true

-- Every session's group is one of the groups, and every tunnel's session one of the sessions.
pub record Linked (v : VaultData) : Type 0 where
  pub grouped : All (Grouped v.groups) v.sessions
  pub owned : All (Owned v.sessions) v.tunnels

-- What an edit gives is linked, if it gives anything.
abbrev pub Keeps : AppResult VaultData → Type 0
Keeps (AppResult.err error) = Unit
Keeps (AppResult.ok v) = Linked v
