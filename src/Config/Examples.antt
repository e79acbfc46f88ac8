-- ===== src/Config/Examples.antt =====
-- The theorems on the configuration, at a small vault and a few edits.
mod Preferences
use hlem_ssh.Prelude.{◌≡◌, ◌≢◌, refl, true, false, List, [], ◌∷◌, none, some, arith}
use hlem_ssh.Prelude.Text.{codes}
use hlem_ssh.Prelude.Chars.{Text}
use hlem_ssh.Config.Data.{AuthMethod, VaultData, SessionInput}
use hlem_ssh.Config.Defaults.{default_ssh_options, default_terminal_options, default_app_settings}
use hlem_ssh.Config.Vault
use hlem_ssh.Config.Vault.{with_default_group, migrate_vault_data, touch, first_id}
use hlem_ssh.Config.Vault.Migrate.{IsCurrent, migrate_vault_data-IsCurrent}
use hlem_ssh.Config.Validate.{valid}
use hlem_ssh.Config.Store.{delete_session}
use hlem_ssh.Config.Store.Mutate.{VaultStore, mutate, Applied, mutate-Applied}
use hlem_ssh.Config.Store.Links.{Linked}
use hlem_ssh.Config.Store.Links.Edits.{Edit, perform_all, perform_all-Linked}
use hlem_ssh.Config.Mutation
use hlem_ssh.Config.Mutation.{
  Gate, ConfigMutationCoordinator, LockAnswer, ticket, lock, Event, step, run, begin_replacement,
  drop_replacement,
}
use hlem_ssh.Config.Mutation.Tickets.{lock-stale, lock-fresh}

abbrev pub now : Text
now = codes "2026-01-01T00:00:00Z"

abbrev pub small_vault : VaultData
small_vault = with_default_group (codes "g0") now now now

abbrev pub server : SessionInput
server = record {
  name = codes " web ";
  group_id = some (codes "g1");
  host = codes "10.0.0.1";
  port = 22;
  username = codes "root";
  auth = record {
    method = AuthMethod.password;
    password = none;
    private_key_path = none;
    imported_private_key = none;
    private_key_passphrase = none;
  };
  ssh = default_ssh_options;
  default_path = codes "/srv/./app/../logs";
  tags = codes "prod" ∷ codes " prod " ∷ [];
  note = none;
  terminal = default_terminal_options;
  sftp = record { default_path = []; show_hidden = false };
}

-- A group, a session in it, a tunnel of it; then the group goes, and the session.
abbrev pub edits : List Edit
edits =
    Edit.create_group (codes "g1") now (record { name = codes "lab"; parent_id = none })
    ∷ Edit.create_session (codes "s1") now server
    ∷ Edit.create_tunnel (codes "t1") now (record {
      name = codes "db";
      session_id = codes "s1";
      forward_type = codes "local";
      bind_host = codes "127.0.0.1";
      bind_port = 0;
      target_host = codes "10.0.0.2";
      target_port = 5432;
    })
    ∷ Edit.delete_group (codes "g1")
    ∷ Edit.delete_session (codes "s1")
    ∷ []

small_vault-Linked : Linked small_vault
unfolding with_default_group Vault.empty touch
small_vault-Linked = record { grouped = tt; owned = tt }

perform_all-Linked_example : Linked (perform_all edits small_vault)
perform_all-Linked_example = perform_all-Linked edits small_vault small_vault-Linked

abbrev replaced_once : ConfigMutationCoordinator
replaced_once = record { gate = Gate.free; epoch = 2 }

replacement_runs : run (Event.begun ∷ Event.replaced ∷ []) Mutation.default ≡ some replaced_once
unfolding run step begin_replacement drop_replacement
replacement_runs = refl

lock-stale_example : (lock (ticket Mutation.default) replaced_once).0 ≢ LockAnswer.granted
lock-stale_example =
    lock-stale (Event.begun ∷ Event.replaced ∷ []) Mutation.default replaced_once (omega arith)
      (omega arith) replacement_runs refl

abbrev replacing_now : ConfigMutationCoordinator
replacing_now = record { gate = Gate.replacing; epoch = 1 }

lock-fresh_example :
    lock (ticket replaced_once) replaced_once
    ≡ (LockAnswer.granted, record replaced_once { gate = Gate.mutating })
lock-fresh_example =
    lock-fresh (Event.begun ∷ Event.replaced ∷ []) replaced_once (omega arith) replacement_runs refl
