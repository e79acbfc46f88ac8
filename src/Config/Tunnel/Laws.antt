-- ===== src/Config/Tunnel/Laws.antt =====
-- Stored tunnels and their edits (src-tauri/src/config.rs).
use hlem_ssh.Prelude.{◌≡◌, refl, true, Option, none, some, is_none, arith}
use hlem_ssh.Prelude.Chars.{Text, trim}
use hlem_ssh.Prelude.Chars.Laws.{trim-trim}
use hlem_ssh.Config.Data.{TunnelConfig, TunnelInput, TunnelPatch}
use hlem_ssh.Config.Tunnel
use hlem_ssh.Config.Tunnel.{unwrap_or, apply_to}

-- Names and addresses as they are stored.
pub record IsStored (tunnel : TunnelConfig) : Type 0 where
  pub name : trim tunnel.name ≡ tunnel.name
  pub bind_host : trim tunnel.bind_host ≡ tunnel.bind_host
  pub target_host : trim tunnel.target_host ≡ tunnel.target_host

-- What `new` makes, and what `update` makes of any tunnel, is as tunnels are stored.
pub update-IsStored :
    (id now later : Text) (input input' : TunnelInput) (tunnel : TunnelConfig)
    → IsStored (Tunnel.new id now input) × IsStored (Tunnel.update later input' tunnel)
unfolding Tunnel.new Tunnel.update
update-IsStored id now later input input' tunnel = (
  record {
    name = trim-trim input.name;
    bind_host = trim-trim input.bind_host;
    target_host = trim-trim input.target_host;
  },
  record {
    name = trim-trim input'.name;
    bind_host = trim-trim input'.bind_host;
    target_host = trim-trim input'.target_host;
  },
)

unwrap_none {ℓ} : {A : Type ℓ} (d : A) (o : Option A) → is_none o ≡ true → unwrap_or d o ≡ d
unwrap_none d none h = refl
unwrap_none d (some a) h = absurd (ground arith)

-- An empty patch leaves a stored tunnel as it was, but for the time of the update.
pub update-apply_to :
    (p : TunnelPatch) (now : Text) (tunnel : TunnelConfig)
    → Tunnel.is_empty p ≡ true
    → IsStored tunnel
    → Tunnel.update now (apply_to p tunnel) tunnel ≡ record tunnel { updated_at = now }
unfolding Tunnel.is_empty Tunnel.update apply_to
update-apply_to p now tunnel h v =
    rw
      (
        unwrap_none tunnel.name p.name (ground arith),
        unwrap_none tunnel.session_id p.session_id (ground arith),
        unwrap_none tunnel.forward_type p.forward_type (ground arith),
        unwrap_none tunnel.bind_host p.bind_host (ground arith),
        unwrap_none tunnel.bind_port p.bind_port (ground arith),
        unwrap_none tunnel.target_host p.target_host (ground arith),
        unwrap_none tunnel.target_port p.target_port (ground arith),
        v.name,
        v.bind_host,
        v.target_host,
      )
      refl
