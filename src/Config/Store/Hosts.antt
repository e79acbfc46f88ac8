-- ===== src/Config/Store/Hosts.antt =====
-- The known hosts of `VaultStore` (src-tauri/src/vault.rs): lookup by address, and trust in a key.
pub mod Laws
use hlem_ssh.Config.Data.{VaultData, SessionConfig, KnownHostEntry, SshOptions}
use hlem_ssh.Config.Validate.{AppError, AppResult}
use hlem_ssh.Config.Store.{
  ◌==◌, [], ◌||◌, ◌&&◌, ◌∷◌, not, same_text, if◌then◌else◌, none, ◌++◌, ℕ, Option, some, Text, Bool,
  List, Edited, update_first,
}

-- `iter().find(..)`
unfoldable pub find_first {ℓ} : {A : Type ℓ} → (A → Bool) → List A → Option A
find_first p [] = none
find_first p (x ∷ xs) = if p x then some x else find_first p xs

abbrev pub is_at : Text → ℕ → KnownHostEntry → Bool
is_at host port entry = same_text entry.host host && entry.port == port

unfoldable pub known_host : Text → ℕ → VaultData → Option KnownHostEntry
known_host host port v = find_first (is_at host port) v.known_hosts

abbrev pub set_fingerprint : Text → SessionConfig → SessionConfig
set_fingerprint fingerprint s = record s {
  ssh = record (s.ssh) { host_key_fingerprint = some fingerprint };
}

abbrev pub or_add {ℓ} : {A : Type ℓ} → A → List A → Option (List A) → List A
or_add entry entries none = entries ++ entry ∷ []
or_add entry entries (some replaced) = replaced

-- The entry of the address is replaced, or a new one is pushed.
unfoldable pub put_host : KnownHostEntry → List KnownHostEntry → List KnownHostEntry
put_host entry known =
    or_add entry known (update_first (is_at entry.host entry.port) (λ old. entry) known)

abbrev pub new_entry : Text → SessionConfig → ℕ → Text → Text → KnownHostEntry
new_entry now session port algorithm fingerprint = record {
  host = session.host;
  port = port;
  algorithm = algorithm;
  fingerprint = fingerprint;
  trusted_at = now;
}

abbrev pub or_same {ℓ} : {A : Type ℓ} → List A → Option (List A) → List A
or_same entries none = entries
or_same entries (some changed) = changed

-- The rest of the closure, for the session that was found.
unfoldable pub trust_session :
    Text → Text → Text → ℕ → Text → Text → VaultData → Option SessionConfig → Edited
trust_session now session_id host port algorithm fingerprint v none =
    AppResult.err (AppError.not_found "会话 " session_id)
trust_session now session_id host port algorithm fingerprint v (some session) =
    if not (same_text session.host host) || not (session.port == port)
    then AppResult.err (AppError.invalid_input "会话地址已变化，请重新连接并确认主机密钥")
    else AppResult.ok (record v {
      sessions = or_same v.sessions (
          update_first (λ (s : SessionConfig). same_text s.id session_id)
            (set_fingerprint fingerprint) v.sessions);
      known_hosts = put_host (new_entry now session port algorithm fingerprint) v.known_hosts;
    })

unfoldable pub trust_host_key : Text → Text → Text → ℕ → Text → Text → VaultData → Edited
trust_host_key now session_id host port algorithm fingerprint v =
    trust_session now session_id host port algorithm fingerprint v
      (find_first (λ (s : SessionConfig). same_text s.id session_id) v.sessions)
