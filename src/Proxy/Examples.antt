-- ===== src/Proxy/Examples.antt =====
-- The theorems on handshakes, at a short host name and a short header.
use hlem_ssh.Prelude.{◌≡◌, ◌≤◌, refl, true, [], ◌∷◌, ◌++◌, arith, length}
use hlem_ssh.Prelude.Text.{Bytes, codes}
use hlem_ssh.Prelude.Utf8.{is_utf8}
use hlem_ssh.Proxy.Wire.{Answer, Wire}
use hlem_ssh.Proxy.Socks5.{Host, connect_via_socks5, handle_socks5}
use hlem_ssh.Proxy.Socks5.RoundTrip.{answers, wire, socks5_agree}
use hlem_ssh.Proxy.Http.{read_http_header, max_header_bytes, request, decimal}
use hlem_ssh.Proxy.Http.Header.{EndsFirst, IsReading, read_http_header_lem}

abbrev host : Bytes
host = codes "a.example"

host-is_utf8 : is_utf8 host ≡ true
unfolding is_utf8
host-is_utf8 = refl

socks5_agree_example :
    (client : Wire) × (connect_via_socks5 host 22 (wire (answers ++ 7 ∷ []) [])
      ≡ (Answer.ok tt, client))
    × (client.incoming ≡ 7 ∷ [])
    × (handle_socks5 (λ h p. true) (wire (client.sent ++ 8 ∷ 9 ∷ []) [])
        ≡ (Answer.ok (Host.domain host, 22), wire (8 ∷ 9 ∷ []) answers))
socks5_agree_example =
    socks5_agree host 22 (8 ∷ 9 ∷ []) (7 ∷ []) (omega arith) (omega arith) host-is_utf8
      (omega arith)

request_runs :
    request (codes "h") 22
    ≡ codes "CONNECT h:22 HTTP/1.1"
      ++ 13 ∷ 10 ∷ codes "Host: h:22"
      ++ 13 ∷ 10 ∷ codes "Proxy-Connection: keep-alive"
      ++ 13 ∷ 10 ∷ 13 ∷ 10 ∷ []
unfolding request decimal
request_runs = refl

abbrev reply : Wire
reply = record { incoming = 72 ∷ 13 ∷ 10 ∷ 13 ∷ 10 ∷ 83 ∷ []; sent = []; writable = true }

-- The lossy reading of ASCII is the text itself.
abbrev as_it_is : Bytes → Bytes
as_it_is bytes = bytes

read_http_header_lem_example :
    ((front rest : Bytes)
      → reply.incoming ≡ front ++ rest
      → length front ≤ max_header_bytes
      → EndsFirst [] front
      → read_http_header as_it_is reply
        ≡ (Answer.ok (as_it_is front), record reply { incoming = rest }))
    × ((header : Bytes)
        → (read_http_header as_it_is reply).0 ≡ Answer.ok header
        → IsReading as_it_is reply.incoming header (read_http_header as_it_is reply).1.incoming)
read_http_header_lem_example = read_http_header_lem as_it_is reply
