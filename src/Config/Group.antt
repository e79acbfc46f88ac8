-- ===== src/Config/Group.antt =====
-- `SessionGroup` of src-tauri/src/config.rs.
use hlem_ssh.Prelude.{ℕ}
use hlem_ssh.Prelude.Chars.{Text, trim}
use hlem_ssh.Config.Data.{SessionGroup, GroupInput}

unfoldable pub new : Text → Text → GroupInput → ℕ → SessionGroup
new id now input sort_order = record {
  id = id;
  name = trim input.name;
  parent_id = input.parent_id;
  sort_order = sort_order;
  created_at = now;
  updated_at = now;
}

unfoldable pub update : Text → GroupInput → SessionGroup → SessionGroup
update now input group = record group {
  name = trim input.name;
  parent_id = input.parent_id;
  updated_at = now;
}
