-- ===== src/Config/Store/Hosts/Laws.antt =====
-- Lookup of a host after trust in its key (src-tauri/src/vault.rs).
use hlem_ssh.Prelude.{
  ℕ, ◌≡◌, refl, sym, ap, ◌∙◌, true, false, not, ◌&&◌, ◌||◌, List, [], ◌∷◌, Option, none, some, ◌==◌,
  if◌then◌else◌, arith, if_cases, Bool-cases, inl, inr,
}
use hlem_ssh.Prelude.Chars.{Text, same_text}
use hlem_ssh.Prelude.Chars.Laws.{same_text-eq}
use hlem_ssh.Config.Data.{VaultData, SessionConfig, KnownHostEntry}
use hlem_ssh.Config.Validate.{AppResult}
use hlem_ssh.Config.Store.{Edited, update_first}
use hlem_ssh.Config.Store.Hosts.{
  find_first, is_at, known_host, or_add, put_host, new_entry, trust_session, trust_host_key,
}

-- The entry that lookup gives after `put_host`.
abbrev found_after : KnownHostEntry → Text → ℕ → Option KnownHostEntry → Option KnownHostEntry
found_after entry host port before = if is_at host port entry then some entry else before

-- Two entries of one address are at the same addresses.
at_same :
    (entry old : KnownHostEntry) (host : Text) (port : ℕ)
    → is_at entry.host entry.port old ≡ true
    → is_at host port old ≡ is_at host port entry
at_same entry old host port h =
    let host_eq : old.host ≡ entry.host = same_text-eq old.host entry.host (ground arith) in
    let port_eq : old.port ≡ entry.port = ground arith in rw (host_eq, port_eq) refl

at_there :
    (entry old : KnownHostEntry) (host : Text) (port : ℕ)
    → is_at host port entry ≡ true
    → is_at entry.host entry.port old ≡ is_at host port old
at_there entry old host port h =
    let host_eq : entry.host ≡ host = same_text-eq entry.host host (ground arith) in
    let port_eq : entry.port ≡ port = ground arith in rw (host_eq, port_eq) refl

find-later :
    (entry old : KnownHostEntry) (known : List KnownHostEntry) (host : Text) (port : ℕ)
    (o : Option (List KnownHostEntry))
    → find_first
        (is_at host port)
        (or_add entry (old ∷ known) (elim o [ none ↦ none | some ys ↦ some (old ∷ ys) ]))
      ≡ (if is_at host port old
          then some old
          else find_first (is_at host port) (or_add entry known o))
unfolding find_first
find-later entry old known host port none = refl
find-later entry old known host port (some ys) = refl

-- The two tests in the other order, for an entry of another address.
swapped :
    (entry old : KnownHostEntry) (host : Text) (port : ℕ) (o : Option KnownHostEntry)
    → is_at entry.host entry.port old ≡ false
    → (if is_at host port old then some old else found_after entry host port o)
      ≡ found_after entry host port (if is_at host port old then some old else o)
swapped entry old host port o e = elim (Bool-cases (is_at host port entry)) [
  | inl b ↦ rw (b, sym (at_there entry old host port b) ∙ e) refl
  | inr b ↦ rw b refl
]

-- What lookup gives after the update of an entry, or after its addition if there was none.
find-changed :
    (entry : KnownHostEntry) (known : List KnownHostEntry) (host : Text) (port : ℕ)
    → find_first
        (is_at host port)
        (or_add entry known (update_first (is_at entry.host entry.port) (λ old. entry) known))
      ≡ found_after entry host port (find_first (is_at host port) known)
unfolding find_first
find-changed entry [] host port = refl
find-changed entry (old ∷ known) host port = elim (Bool-cases (is_at entry.host entry.port old)) [
  | inl e ↦ elim (Bool-cases (is_at host port entry)) [
    | inl b ↦ rw (e, b) refl
    | inr b ↦ rw (e, b, at_same entry old host port e ∙ b) refl
  ]
  | inr e ↦
      let rest = update_first (is_at entry.host entry.port) (λ (x : KnownHostEntry). entry) known in
      rw e (
        find-later entry old known host port rest
        ∙ ap (λ (o : Option KnownHostEntry). if is_at host port old then some old else o)
            (find-changed entry known host port)
        ∙ swapped entry old host port (find_first (is_at host port) known) e)
]

-- What lookup gives for the list that `put_host` leaves.
find-put_host :
    (entry : KnownHostEntry) (known : List KnownHostEntry) (host : Text) (port : ℕ)
    → find_first (is_at host port) (put_host entry known)
      ≡ found_after entry host port (find_first (is_at host port) known)
unfolding put_host
find-put_host entry known host port = find-changed entry known host port

-- After a trust that was accepted, lookup at the session's address gives the new entry, and lookup
-- at any other address what it gave before.
abbrev pub Trusts : Text → Text → ℕ → Text → Text → VaultData → Edited → Type 0
Trusts now host port algorithm fingerprint v (AppResult.err error) = Unit
Trusts now host port algorithm fingerprint v (AppResult.ok v') =
    (h : Text) (p : ℕ)
    → known_host h p v' ≡ (
        if same_text host h && port == p
        then some (record {
          host = host;
          port = port;
          algorithm = algorithm;
          fingerprint = fingerprint;
          trusted_at = now;
        })
        else known_host h p v)

trust_session-Trusts :
    (now session_id host : Text) (port : ℕ) (algorithm fingerprint : Text) (v : VaultData)
    (o : Option SessionConfig)
    → Trusts now host port algorithm fingerprint v
        (trust_session now session_id host port algorithm fingerprint v o)
unfolding trust_session known_host
trust_session-Trusts now session_id host port algorithm fingerprint v none = tt
trust_session-Trusts now session_id host port algorithm fingerprint v (some session) =
    if_cases (Trusts now host port algorithm fingerprint v)
      (not (same_text session.host host) || not (session.port == port)) _ _ (λ _. tt)
      λ e h p.
        let same : session.host ≡ host = same_text-eq session.host host (ground arith) in
        find-put_host (new_entry now session port algorithm fingerprint) v.known_hosts h p
        ∙ rw same refl

-- `trust_host_key` either refuses, or lookup at the given host and port then gives the new key, its
-- algorithm and the time, and lookup at any other address gives what it gave before.
pub trust_host_key-Trusts :
    (now session_id host : Text) (port : ℕ) (algorithm fingerprint : Text) (v : VaultData)
    → Trusts now host port algorithm fingerprint v
        (trust_host_key now session_id host port algorithm fingerprint v)
unfolding trust_host_key
trust_host_key-Trusts now session_id host port algorithm fingerprint v =
    trust_session-Trusts now session_id host port algorithm fingerprint v _
