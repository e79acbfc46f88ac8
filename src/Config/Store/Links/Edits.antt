-- ===== src/Config/Store/Links/Edits.antt =====
-- Sequences of the edits of src-tauri/src/vault.rs and the references between entries.
use hlem_ssh.Prelude.{Bool, List, [], ◌∷◌}
use hlem_ssh.Prelude.Chars.{Text}
use hlem_ssh.Config.Data.{VaultData, GroupInput, SessionInput, TunnelInput}
use hlem_ssh.Config.Validate.{AppResult}
use hlem_ssh.Config.Store
use hlem_ssh.Config.Store.{Edited}
use hlem_ssh.Config.Store.Links.{Linked, Keeps}
use hlem_ssh.Config.Store.Links.Groups.{create_group-Keeps, update_group-Keeps, delete_group-Keeps}
use hlem_ssh.Config.Store.Links.Sessions.{
  create_session-Keeps, update_session-Keeps, set_session_favorite-Keeps, mark_session_recent-Keeps,
  clear_session_recent-Keeps, delete_session-Keeps, create_tunnel-Keeps, update_tunnel-Keeps,
  enable_tunnel-Keeps, delete_tunnel-Keeps,
}

pub data Edit : Type 0 where
  create_group : Text → Text → GroupInput → Edit
  update_group : Text → Text → GroupInput → Edit
  delete_group : Text → Edit
  create_session : Text → Text → SessionInput → Edit
  update_session : Text → Text → SessionInput → Edit
  set_session_favorite : Text → Text → Bool → Edit
  mark_session_recent : Text → Text → Edit
  clear_session_recent delete_session : Text → Edit
  create_tunnel : Text → Text → TunnelInput → Edit
  update_tunnel : Text → Text → TunnelInput → Edit
  enable_tunnel : Text → Text → Bool → Edit
  delete_tunnel : Text → Edit

pub perform : Edit → VaultData → Edited
perform (Edit.create_group id now input) v = Store.create_group id now input v
perform (Edit.update_group now id input) v = Store.update_group now id input v
perform (Edit.delete_group id) v = Store.delete_group id v
perform (Edit.create_session id now input) v = Store.create_session id now input v
perform (Edit.update_session now id input) v = Store.update_session now id input v
perform (Edit.set_session_favorite now id favorite) v = Store.set_session_favorite now id favorite v
perform (Edit.mark_session_recent now id) v = Store.mark_session_recent now id v
perform (Edit.clear_session_recent id) v = Store.clear_session_recent id v
perform (Edit.delete_session id) v = Store.delete_session id v
perform (Edit.create_tunnel id now input) v = Store.create_tunnel id now input v
perform (Edit.update_tunnel now id input) v = Store.update_tunnel now id input v
perform (Edit.enable_tunnel now id enabled) v = Store.enable_tunnel now id enabled v
perform (Edit.delete_tunnel id) v = Store.delete_tunnel id v

perform-Keeps : (e : Edit) (v : VaultData) → Linked v → Keeps (perform e v)
unfolding perform
perform-Keeps (Edit.create_group id now input) v l = create_group-Keeps id now input v l
perform-Keeps (Edit.update_group now id input) v l = update_group-Keeps now id input v l
perform-Keeps (Edit.delete_group id) v l = delete_group-Keeps id v l
perform-Keeps (Edit.create_session id now input) v l = create_session-Keeps id now input v l
perform-Keeps (Edit.update_session now id input) v l = update_session-Keeps now id input v l
perform-Keeps (Edit.set_session_favorite now id favorite) v l =
    set_session_favorite-Keeps now id favorite v l
perform-Keeps (Edit.mark_session_recent now id) v l = mark_session_recent-Keeps now id v l
perform-Keeps (Edit.clear_session_recent id) v l = clear_session_recent-Keeps id v l
perform-Keeps (Edit.delete_session id) v l = delete_session-Keeps id v l
perform-Keeps (Edit.create_tunnel id now input) v l = create_tunnel-Keeps id now input v l
perform-Keeps (Edit.update_tunnel now id input) v l = update_tunnel-Keeps now id input v l
perform-Keeps (Edit.enable_tunnel now id enabled) v l = enable_tunnel-Keeps now id enabled v l
perform-Keeps (Edit.delete_tunnel id) v l = delete_tunnel-Keeps id v l

-- A refused edit leaves the data as it was.
pub settle : VaultData → Edited → VaultData
settle v (AppResult.err error) = v
settle v (AppResult.ok next) = next

pub perform_all : List Edit → VaultData → VaultData
perform_all [] v = v
perform_all (e ∷ es) v = perform_all es (settle v (perform e v))

settle-Linked :
    (v : VaultData) (edited : Edited) → Linked v → Keeps edited → Linked (settle v edited)
unfolding settle
settle-Linked v (AppResult.err error) l k = l
settle-Linked v (AppResult.ok next) l k = k

-- If each session's group and each tunnel's session exist, then so after every sequence of edits
-- of groups, sessions and tunnels, whichever of them are refused.
pub perform_all-Linked : (es : List Edit) (v : VaultData) → Linked v → Linked (perform_all es v)
unfolding perform_all
perform_all-Linked [] v l = l
perform_all-Linked (e ∷ es) v l =
    perform_all-Linked es (settle v (perform e v))
      (settle-Linked v (perform e v) l (perform-Keeps e v l))
