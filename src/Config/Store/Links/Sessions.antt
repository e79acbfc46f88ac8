-- ===== src/Config/Store/Links/Sessions.antt =====
-- The edits of sessions and tunnels (src-tauri/src/vault.rs) and the references between entries.
use hlem_ssh.Prelude.{
  ◌≡◌, refl, ◌∙◌, Bool, true, not, ◌==◌, Option, none, some, All-append, arith, keep_if, Bool-cases,
  inl, inr, if_cases, length,
}
use hlem_ssh.Prelude.Chars.{Text, is_empty, same_text, trim}
use hlem_ssh.Config.Data.{VaultData, SessionConfig, TunnelConfig, SessionInput, TunnelInput}
use hlem_ssh.Config.Session
use hlem_ssh.Config.Tunnel
use hlem_ssh.Config.Validate.{
  AppError, AppResult, Checked, unless, then_check, valid, check_group, check_ssh_proxy, name_taken,
  has_group, validate_session_input, validate_tunnel_input, has_session,
}
use hlem_ssh.Config.Store.{
  update_first, create_session, on_session, update_session, set_session_favorite,
  mark_session_recent, clear_session_recent, delete_session, without_session, create_tunnel,
  on_tunnel, update_tunnel, enable_tunnel, delete_tunnel,
}
use hlem_ssh.Config.Store.Links.{group_exists, Grouped, Owned, Linked, Keeps}
use hlem_ssh.Config.Store.Links.Lemmas.{
  has-append, has-without, has-update_first, All-imp, All-keep_if, All-kept, All-update_first,
}
use hlem_ssh.Config.Store.Links.Groups.{after_check-Keeps, or_missing-Keeps}

checked_group :
    (v : VaultData) (o : Option Text) → check_group v o ≡ valid → group_exists v.groups o ≡ true
unfolding check_group
checked_group v none h = refl
checked_group v (some id) h = elim (Bool-cases (has_group v.groups id)) [
  | inl e ↦ e
  | inr e ↦ absurd (cc (rw e at h))
]

passed_first : (first rest : Checked) → then_check first rest ≡ valid → first ≡ valid
passed_first (AppResult.ok tt) rest h = refl
passed_first (AppResult.err error) rest h = absurd cc

-- An accepted session has no group, or one that exists.
validate_session_input-group :
    (v : VaultData) (session_id : Option Text) (input : SessionInput)
    → validate_session_input v session_id input ≡ valid
    → group_exists v.groups input.group_id ≡ true
unfolding validate_session_input
validate_session_input-group v session_id input =
    if_cases Grants (is_empty (trim input.name)) _ _ (λ _ e. absurd cc)
      λ _.
        if_cases Grants (is_empty (trim input.host)) _ _ (λ _ e. absurd cc)
          λ _.
            if_cases Grants (input.port == 0) _ _ (λ _ e. absurd cc)
              λ _.
                if_cases Grants (is_empty (trim input.username)) _ _ (λ _ e. absurd cc)
                  λ _ e. checked_group v input.group_id (
                    passed_first (check_group v input.group_id)
                      (unless (name_taken v.sessions session_id (trim input.name))
                        (AppError.invalid_input "会话名称不能重复") (check_ssh_proxy input.ssh.proxy))
                      e)
  where
    Grants : Checked → Type 0
    Grants c = c ≡ valid → group_exists v.groups input.group_id ≡ true

validate_tunnel_input-session :
    (v : VaultData) (input : TunnelInput)
    → validate_tunnel_input v input ≡ valid
    → has_session v.sessions input.session_id ≡ true
unfolding validate_tunnel_input
validate_tunnel_input-session v input =
    if_cases Grants (is_empty (trim input.name)) _ _ (λ _ e. absurd cc)
      λ _.
        if_cases Grants (not (has_session v.sessions input.session_id)) _ _ (λ _ e. absurd cc)
          λ f e. ground arith
  where
    Grants : Checked → Type 0
    Grants c = c ≡ valid → has_session v.sessions input.session_id ≡ true

pub create_session-Keeps :
    (id now : Text) (input : SessionInput) (v : VaultData)
    → Linked v
    → Keeps (create_session id now input v)
unfolding create_session Session.new
create_session-Keeps id now input v l =
    after_check-Keeps (validate_session_input v none input) _ λ ok. record {
      grouped =
          All-append (Grouped v.groups) v.sessions _ l.grouped
            (validate_session_input-group v none input ok, tt);
      owned =
          All-imp (Owned v.sessions) _ v.tunnels
            (λ t h. has-append (λ (s : SessionConfig). s.id) v.sessions _ t.session_id h) l.owned;
    }

-- A change of one session that keeps its id and leaves its group right.
on_session-Keeps :
    (session_id : Text) (f : SessionConfig → SessionConfig) (v : VaultData)
    → ((s : SessionConfig) → (f s).id ≡ s.id)
    → ((s : SessionConfig) → Grouped v.groups s → Grouped v.groups (f s))
    → Linked v
    → Keeps (on_session session_id f v)
on_session-Keeps session_id f v same right l =
    or_missing-Keeps _ _
      (update_first (λ (s : SessionConfig). same_text s.id session_id) f v.sessions)
      λ sessions e. record {
        grouped = All-update_first (Grouped v.groups) _ f v.sessions right e l.grouped;
        owned =
            All-imp (Owned v.sessions) (Owned sessions) v.tunnels
              (λ t h.
                has-update_first (λ (s : SessionConfig). s.id) _ f v.sessions t.session_id same e
                ∙ h)
              l.owned;
      }

pub update_session-Keeps :
    (now session_id : Text) (input : SessionInput) (v : VaultData)
    → Linked v
    → Keeps (update_session now session_id input v)
unfolding update_session Session.update
update_session-Keeps now session_id input v l =
    after_check-Keeps (validate_session_input v (some session_id) input) _ λ ok.
      on_session-Keeps session_id (Session.update now input) v (λ s. refl)
        (λ s _. validate_session_input-group v (some session_id) input ok) l

pub set_session_favorite-Keeps :
    (now session_id : Text) (favorite : Bool) (v : VaultData)
    → Linked v
    → Keeps (set_session_favorite now session_id favorite v)
unfolding set_session_favorite
set_session_favorite-Keeps now session_id favorite v l =
    on_session-Keeps session_id _ v (λ s. refl) (λ s h. h) l

pub mark_session_recent-Keeps :
    (now session_id : Text) (v : VaultData)
    → Linked v
    → Keeps (mark_session_recent now session_id v)
unfolding mark_session_recent
mark_session_recent-Keeps now session_id v l =
    on_session-Keeps session_id _ v (λ s. refl) (λ s h. h) l

pub clear_session_recent-Keeps :
    (session_id : Text) (v : VaultData) → Linked v → Keeps (clear_session_recent session_id v)
unfolding clear_session_recent
clear_session_recent-Keeps session_id v l = on_session-Keeps session_id _ v (λ s. refl) (λ s h. h) l

pub delete_session-Keeps :
    (session_id : Text) (v : VaultData) → Linked v → Keeps (delete_session session_id v)
unfolding delete_session
delete_session-Keeps session_id v l =
    if_cases Keeps (length v.sessions == length (without_session session_id v.sessions)) _ _
      (λ _. tt)
      λ _. record {
        grouped = All-keep_if (Grouped v.groups) _ v.sessions l.grouped;
        owned =
            All-kept (Owned v.sessions) _
              (λ (t : TunnelConfig). not (same_text t.session_id session_id)) v.tunnels
              (λ t other h.
                has-without (λ (s : SessionConfig). s.id) v.sessions t.session_id session_id
                  (ground arith) h)
              l.owned;
      }

pub create_tunnel-Keeps :
    (id now : Text) (input : TunnelInput) (v : VaultData)
    → Linked v
    → Keeps (create_tunnel id now input v)
unfolding create_tunnel Tunnel.new
create_tunnel-Keeps id now input v l = after_check-Keeps (validate_tunnel_input v input) _ λ ok.
    record {
      grouped = l.grouped;
      owned =
          All-append (Owned v.sessions) v.tunnels _ l.owned
            (validate_tunnel_input-session v input ok, tt);
    }

on_tunnel-Keeps :
    (tunnel_id : Text) (f : TunnelConfig → TunnelConfig) (v : VaultData)
    → ((t : TunnelConfig) → Owned v.sessions t → Owned v.sessions (f t))
    → Linked v
    → Keeps (on_tunnel tunnel_id f v)
on_tunnel-Keeps tunnel_id f v right l =
    or_missing-Keeps _ _ (update_first (λ (t : TunnelConfig). same_text t.id tunnel_id) f v.tunnels)
      λ tunnels e. record {
        grouped = l.grouped;
        owned = All-update_first (Owned v.sessions) _ f v.tunnels right e l.owned;
      }

pub update_tunnel-Keeps :
    (now tunnel_id : Text) (input : TunnelInput) (v : VaultData)
    → Linked v
    → Keeps (update_tunnel now tunnel_id input v)
unfolding update_tunnel Tunnel.update
update_tunnel-Keeps now tunnel_id input v l =
    after_check-Keeps (validate_tunnel_input v input) _ λ ok.
      on_tunnel-Keeps tunnel_id (Tunnel.update now input) v
        (λ t _. validate_tunnel_input-session v input ok) l

pub enable_tunnel-Keeps :
    (now tunnel_id : Text) (enabled : Bool) (v : VaultData)
    → Linked v
    → Keeps (enable_tunnel now tunnel_id enabled v)
unfolding enable_tunnel
enable_tunnel-Keeps now tunnel_id enabled v l = on_tunnel-Keeps tunnel_id _ v (λ t h. h) l

pub delete_tunnel-Keeps :
    (tunnel_id : Text) (v : VaultData) → Linked v → Keeps (delete_tunnel tunnel_id v)
unfolding delete_tunnel
delete_tunnel-Keeps tunnel_id v l =
    if_cases Keeps
      (length v.tunnels
        == length (keep_if (λ (t : TunnelConfig). not (same_text t.id tunnel_id)) v.tunnels))
      _ _ (λ _. tt)
      λ _. record {
        grouped = l.grouped;
        owned = All-keep_if (Owned v.sessions) _ v.tunnels l.owned;
      }
