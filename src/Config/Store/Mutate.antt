-- ===== src/Config/Store/Mutate.antt =====
-- `mutate` of `VaultStore` (src-tauri/src/vault.rs). Encryption and the write of the file are the
-- parameter `save`.
use hlem_ssh.Prelude.{
  ℕ, ◌≡◌, ◌⊎◌, refl, inl, inr, Option, none, some, Bool, true, false, not, any, ◌&&◌, if◌then◌else◌,
}
use hlem_ssh.Prelude.Words.{saturating_add}
use hlem_ssh.Prelude.Chars.{Text, same_text}
use hlem_ssh.Config.Data.{VaultData, ConfigSnapshot, TunnelConfig}
use hlem_ssh.Config.Vault.{touch}
use hlem_ssh.Config.Validate.{AppError, AppResult, Checked}
use hlem_ssh.Config.Store.{Edited, enable_tunnel}

pub record VaultStore : Type 0 where
  pub unlocked : Option VaultData
  pub revision : ℕ

take_over : VaultData → Checked → VaultStore → AppResult ConfigSnapshot × VaultStore
take_over next (AppResult.err error) store = (AppResult.err error, store)
take_over next (AppResult.ok u) store =
    let revision = saturating_add store.revision 1 in
    (
      AppResult.ok (record { vault_data = next; revision = revision }),
      record { unlocked = some next; revision = revision },
    )

save_edited :
    (VaultData → Checked) → Text → Edited → VaultStore → AppResult ConfigSnapshot × VaultStore
unfolding take_over
save_edited save now (AppResult.err error) store = (AppResult.err error, store)
save_edited save now (AppResult.ok next) store =
    let touched = touch now next in take_over touched (save touched) store

edit_unlocked :
    (VaultData → Checked)
    → Text
    → (VaultData → Edited)
    → Option VaultData
    → VaultStore
    → AppResult ConfigSnapshot × VaultStore
unfolding save_edited
edit_unlocked save now edit none store = (AppResult.err AppError.vault_locked, store)
edit_unlocked save now edit (some v) store = save_edited save now (edit v) store

unfoldable pub mutate :
    (VaultData → Checked)
    → Text
    → (VaultData → Edited)
    → VaultStore
    → AppResult ConfigSnapshot × VaultStore
unfolding edit_unlocked
mutate save now edit store = edit_unlocked save now edit store.unlocked store

abbrev same_bool : Bool → Bool → Bool
same_bool true b = b
same_bool false b = not b

-- `snapshot()`
unfoldable pub snapshot : VaultStore → Option VaultData → AppResult ConfigSnapshot
snapshot store none = AppResult.err AppError.vault_locked
snapshot store (some v) = AppResult.ok (record { vault_data = v; revision = store.revision })

tunnel_is : Text → Bool → Option VaultData → Bool
tunnel_is tunnel_id enabled none = false
tunnel_is tunnel_id enabled (some v) =
    any (λ (t : TunnelConfig). same_text t.id tunnel_id && same_bool t.enabled enabled) v.tunnels

-- A tunnel that already is as wanted is not saved again.
unfoldable pub set_tunnel_enabled :
    (VaultData → Checked) → Text → Text → Bool → VaultStore → AppResult ConfigSnapshot × VaultStore
unfolding tunnel_is
set_tunnel_enabled save now tunnel_id enabled store =
    if tunnel_is tunnel_id enabled store.unlocked
    then (snapshot store store.unlocked, store)
    else mutate save now (enable_tunnel now tunnel_id enabled) store

-- Either nothing changes and the answer is an error, or an edit of the stored data succeeded and was
-- saved, its result is the new data with the new time, which is also the answer, and the revision
-- is the next one.
abbrev pub Applied :
    (VaultData → Checked)
    → Text
    → (VaultData → Edited)
    → VaultStore
    → AppResult ConfigSnapshot × VaultStore
    → Type 0
Applied save now edit store (answer, store') =
    ((error : AppError) × (answer ≡ AppResult.err error) × (store' ≡ store))
    ⊎ ((v : VaultData) × (next : VaultData) × (store.unlocked ≡ some v)
        × (edit v ≡ AppResult.ok next)
        × (save (touch now next) ≡ AppResult.ok tt)
        × (store'.unlocked ≡ some (touch now next))
        × (store'.revision ≡ saturating_add store.revision 1)
        × (answer
            ≡ AppResult.ok (record { vault_data = touch now next; revision = store'.revision })))

module _ (save : VaultData → Checked) (now : Text) (edit : VaultData → Edited)
    (store : VaultStore) where
  saved-Applied :
      (v next : VaultData) (saved : Checked)
      → store.unlocked ≡ some v
      → edit v ≡ AppResult.ok next
      → save (touch now next) ≡ saved
      → Applied save now edit store (take_over (touch now next) saved store)
  unfolding take_over
  saved-Applied v next (AppResult.err error) u e s = inl (error, refl, refl)
  saved-Applied v next (AppResult.ok tt) u e s = inr (v, next, u, e, s, refl, refl, refl)

  edited-Applied :
      (v : VaultData) (edited : Edited)
      → store.unlocked ≡ some v
      → edit v ≡ edited
      → Applied save now edit store (save_edited save now edited store)
  unfolding save_edited
  edited-Applied v (AppResult.err error) u e = inl (error, refl, refl)
  edited-Applied v (AppResult.ok next) u e = saved-Applied v next (save (touch now next)) u e refl

  unlocked-Applied :
      (o : Option VaultData)
      → store.unlocked ≡ o
      → Applied save now edit store (edit_unlocked save now edit o store)
  unfolding edit_unlocked
  unlocked-Applied none u = inl (AppError.vault_locked, refl, refl)
  unlocked-Applied (some v) u = edited-Applied v (edit v) u refl

-- An operation on the store either answers an error and changes nothing, or its edit of the stored
-- data succeeded and was saved: then the edited data with the new time is stored and answered, and
-- the revision is the next one.
pub mutate-Applied :
    (save : VaultData → Checked) (now : Text) (edit : VaultData → Edited) (store : VaultStore)
    → Applied save now edit store (mutate save now edit store)
unfolding mutate
mutate-Applied save now edit store = unlocked-Applied save now edit store store.unlocked refl
