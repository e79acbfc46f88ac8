-- ===== src/Proxy/Socks5/RoundTrip.antt =====
-- The two sides of SOCKS5 with each other (src-tauri/src/remote/proxy.rs).
use hlem_ssh.Prelude.{
  ℕ, ◌+◌, ◌*◌, ◌/◌, ◌%◌, ◌<◌, ◌≤◌, ◌≡◌, refl, ap, true, false, not, [], ◌∷◌, ◌++◌, length, arith,
  ltb, ◌==◌,
}
use hlem_ssh.Prelude.Text.{Bytes}
use hlem_ssh.Prelude.Utf8.{is_utf8}
use hlem_ssh.Proxy.Wire.{Answer, Wire, split_exact-append}
use hlem_ssh.Proxy.Socks5.{
  Host, reply, read_name, read_host, read_port, greet, handshake, handle_socks5, connect_request,
  skip_address, converse, connect_via_socks5,
}

-- What the server sends for a target that it reaches.
abbrev pub answers : Bytes
answers = 5 ∷ 0 ∷ reply 0

read_name-domain :
    (host rest sent : Bytes)
    → 0 < length host
    → is_utf8 host ≡ true
    → read_name (record { incoming = length host ∷ host ++ rest; sent = sent; writable = true })
      ≡ (Answer.ok (Host.domain host), record { incoming = rest; sent = sent; writable = true })
unfolding read_name
read_name-domain host rest sent pos utf8 =
    let some_ : not (length host == 0) ≡ true = ground arith in
    rw (some_, split_exact-append host rest, utf8) refl

read_port-bytes :
    (port : ℕ) (rest sent : Bytes)
    → 0 < port
    → read_port
        (record { incoming = (port / 256) ∷ (port % 256) ∷ rest; sent = sent; writable = true })
      ≡ (Answer.ok port, record { incoming = rest; sent = sent; writable = true })
unfolding read_port
read_port-bytes port rest sent pos =
    let whole : port / 256 * 256 + port % 256 ≡ port = omega arith in
    let some_ : not (port == 0) ≡ true = ground arith in rw (whole, some_) refl

abbrev pub wire : Bytes → Bytes → Wire
wire incoming sent = record { incoming = incoming; sent = sent; writable = true }

append_cons : (xs ys zs : Bytes) → (xs ++ ys) ++ zs ≡ xs ++ (ys ++ zs)
append_cons [] ys zs = refl
append_cons (x ∷ xs) ys zs = ap (λ l. x ∷ l) (append_cons xs ys zs)

handshake-request :
    (host : Bytes) (port : ℕ) (rest sent : Bytes)
    → 0 < length host
    → length host ≤ 255
    → is_utf8 host ≡ true
    → 0 < port
    → handshake (wire (5 ∷ 1 ∷ 0 ∷ connect_request host port ++ rest) sent)
      ≡ (Answer.ok (Host.domain host, port), wire rest (sent ++ 5 ∷ 0 ∷ []))
unfolding handshake greet read_host connect_request
handshake-request host port rest sent pos small utf8 up =
    let len : length host % 256 ≡ length host = omega arith in
    rw
      (
        len,
        append_cons host ((port / 256) ∷ (port % 256) ∷ []) rest,
        read_name-domain host ((port / 256) ∷ (port % 256) ∷ rest) (sent ++ 5 ∷ 0 ∷ []) pos utf8,
        read_port-bytes port rest (sent ++ 5 ∷ 0 ∷ []) up,
      )
      refl

converse-answers :
    (host : Bytes) (port : ℕ) (rest : Bytes)
    → converse host port (wire (answers ++ rest) [])
      ≡ (Answer.ok tt, wire rest (5 ∷ 1 ∷ 0 ∷ connect_request host port))
unfolding converse skip_address
converse-answers host port rest = refl

-- For a name of 1 to 255 bytes that is UTF-8 and a port that is not 0, the two sides understand each
-- other: the server reads exactly this name and port from what the client sends, and what it sends
-- back ends the client's handshake; neither side takes a byte of what follows.
pub socks5_agree :
    (host : Bytes) (port : ℕ) (to_server to_client : Bytes)
    → 0 < length host
    → length host ≤ 255
    → is_utf8 host ≡ true
    → 0 < port
    → (client : Wire) × (connect_via_socks5 host port (wire (answers ++ to_client) [])
        ≡ (Answer.ok tt, client))
      × (client.incoming ≡ to_client)
      × (handle_socks5 (λ h p. true) (wire (client.sent ++ to_server) [])
          ≡ (Answer.ok (Host.domain host, port), wire to_server answers))
unfolding connect_via_socks5 handle_socks5
socks5_agree host port to_server to_client pos small utf8 up =
    let short : ltb 255 (length host) ≡ false = ground arith in
    (
      wire to_client (5 ∷ 1 ∷ 0 ∷ connect_request host port),
      rw short (converse-answers host port to_client),
      refl,
      rw (handshake-request host port to_server [] pos small utf8 up) refl,
    )
