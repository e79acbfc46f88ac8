-- ===== src/Config/Tunnel.antt =====
-- `TunnelConfig` and `TunnelPatch` of src-tauri/src/config.rs. `id` is the fresh UUID and `now` the
-- time that a call reads.
pub mod Laws
use hlem_ssh.Prelude.{Bool, false, ◌&&◌, Option, none, some, is_none}
use hlem_ssh.Prelude.Chars.{Text, trim}
use hlem_ssh.Config.Data.{TunnelConfig, TunnelInput, TunnelPatch}

abbrev pub unwrap_or {ℓ} : {A : Type ℓ} → A → Option A → A
unwrap_or d none = d
unwrap_or d (some a) = a

unfoldable pub is_empty : TunnelPatch → Bool
is_empty p =
    is_none p.name
    && is_none p.session_id
    && is_none p.forward_type
    && is_none p.bind_host
    && is_none p.bind_port
    && is_none p.target_host
    && is_none p.target_port

unfoldable pub apply_to : TunnelPatch → TunnelConfig → TunnelInput
apply_to p current = record {
  name = unwrap_or current.name p.name;
  session_id = unwrap_or current.session_id p.session_id;
  forward_type = unwrap_or current.forward_type p.forward_type;
  bind_host = unwrap_or current.bind_host p.bind_host;
  bind_port = unwrap_or current.bind_port p.bind_port;
  target_host = unwrap_or current.target_host p.target_host;
  target_port = unwrap_or current.target_port p.target_port;
}

unfoldable pub new : Text → Text → TunnelInput → TunnelConfig
new id now input = record {
  id = id;
  enabled = false;
  name = trim input.name;
  session_id = input.session_id;
  forward_type = input.forward_type;
  bind_host = trim input.bind_host;
  bind_port = input.bind_port;
  target_host = trim input.target_host;
  target_port = input.target_port;
  created_at = now;
  updated_at = now;
}

unfoldable pub update : Text → TunnelInput → TunnelConfig → TunnelConfig
update now input tunnel = record tunnel {
  name = trim input.name;
  session_id = input.session_id;
  forward_type = input.forward_type;
  bind_host = trim input.bind_host;
  bind_port = input.bind_port;
  target_host = trim input.target_host;
  target_port = input.target_port;
  updated_at = now;
}
