-- ===== src/Config/Session.antt =====
-- `SessionConfig` of src-tauri/src/config.rs. `id` is the fresh UUID and `now` the time that a call
-- reads.
use hlem_ssh.Prelude.{false, Option, none, some, if◌then◌else◌}
use hlem_ssh.Prelude.Chars.{Text, is_empty, trim}
use hlem_ssh.Config.Data.{SessionConfig, SessionInput}
use hlem_ssh.Config.Path.{normalize_remote_path}
use hlem_ssh.Config.Tags.{clean_tags}

-- `note.filter(|note| !note.trim().is_empty())`
unfoldable pub keep_note : Option Text → Option Text
keep_note none = none
keep_note (some note) = if is_empty (trim note) then none else some note

unfoldable pub new : Text → Text → SessionInput → SessionConfig
unfolding keep_note
new id now input = record {
  id = id;
  name = trim input.name;
  group_id = input.group_id;
  favorite = false;
  last_connected_at = none;
  connection_count = 0;
  host = trim input.host;
  port = input.port;
  username = trim input.username;
  auth = input.auth;
  ssh = input.ssh;
  default_path = normalize_remote_path input.default_path;
  tags = clean_tags input.tags;
  note = keep_note input.note;
  terminal = input.terminal;
  sftp = input.sftp;
  created_at = now;
  updated_at = now;
}

unfoldable pub update : Text → SessionInput → SessionConfig → SessionConfig
unfolding keep_note
update now input session = record session {
  name = trim input.name;
  group_id = input.group_id;
  host = trim input.host;
  port = input.port;
  username = trim input.username;
  auth = input.auth;
  ssh = input.ssh;
  default_path = normalize_remote_path input.default_path;
  tags = clean_tags input.tags;
  note = keep_note input.note;
  terminal = input.terminal;
  sftp = input.sftp;
  updated_at = now;
}
