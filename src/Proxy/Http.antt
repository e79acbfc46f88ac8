-- ===== src/Proxy/Http.antt =====
-- HTTP CONNECT of src-tauri/src/remote/proxy.rs, on the stream to the proxy.
pub mod Header
use hlem_ssh.Prelude.{
  ℕ, zero, suc, ◌+◌, ◌*◌, ◌/◌, ◌%◌, Bool, true, false, not, ◌&&◌, ◌||◌, List, [], ◌∷◌, ◌++◌, String,
  Option, none, some, length, ltb, ◌==◌, if◌then◌else◌,
}
use hlem_ssh.Prelude.Text.{Bytes, codes}
use hlem_ssh.Proxy.Wire.{
  AppError, Answer, Wire, Talk, ◌>>=◌, ◌>>◌, give, fail, require, write_all, closed_error,
}

abbrev pub max_header_bytes : ℕ
max_header_bytes = 16 * 1024

-- A prefix, byte by byte.
abbrev pub starts_with : Bytes → Bytes → Bool
starts_with [] bytes = true
starts_with (p ∷ prefix) [] = false
starts_with (p ∷ prefix) (b ∷ bytes) = p == b && starts_with prefix bytes

-- `buffer.ends_with(b"\\r\\n\\r\\n")`, on the buffer with its last byte first.
abbrev pub ends_header : Bytes → Bool
ends_header buffer = starts_with (10 ∷ 13 ∷ 10 ∷ 13 ∷ []) buffer

abbrev pub reverse_onto : Bytes → Bytes → Bytes
reverse_onto [] ys = ys
reverse_onto (x ∷ xs) ys = reverse_onto xs (x ∷ ys)

-- The loop of `read_http_header`: `room` is what the buffer has still room for, and the buffer is kept
-- with its last byte first. `lossy` is `String::from_utf8_lossy`, on the bytes of the text.
unfoldable pub header_loop : (Bytes → Bytes) → ℕ → Bytes → Bytes → Answer Bytes × Bytes
header_loop lossy zero buffer incoming =
    (Answer.err (AppError.remote "HTTP CONNECT 代理响应头过大"), incoming)
header_loop lossy (suc room) buffer [] = (Answer.err closed_error, [])
header_loop lossy (suc room) buffer (b ∷ incoming) =
    let rest = header_loop lossy room (b ∷ buffer) incoming in
    if ends_header (b ∷ buffer)
    then (Answer.ok (lossy (reverse_onto (b ∷ buffer) [])), incoming)
    else rest

unfoldable pub read_http_header : (Bytes → Bytes) → Talk Bytes
read_http_header lossy w =
    let (answer, incoming) = header_loop lossy max_header_bytes [] w.incoming in
    (answer, record w { incoming = incoming })

-- Decimal digits; a port has at most five.
unfoldable pub decimal : ℕ → ℕ → Bytes
decimal zero n = []
decimal (suc fuel) n =
    let rest = decimal fuel (n / 10) in
    if ltb n 10 then (48 + n) ∷ [] else rest ++ (48 + n % 10) ∷ []

unfoldable pub request : Bytes → ℕ → Bytes
unfolding decimal
request host port =
    let target = host ++ 58 ∷ decimal 5 port in
    codes "CONNECT "
    ++ target
    ++ codes " HTTP/1.1"
    ++ 13 ∷ 10 ∷ codes "Host: "
    ++ target
    ++ 13 ∷ 10 ∷ codes "Proxy-Connection: keep-alive"
    ++ 13 ∷ 10 ∷ 13 ∷ 10 ∷ []

-- The first of `lines()`; its carriage return does not matter to the test.
unfoldable pub status_line : Bytes → Bytes
status_line [] = []
status_line (b ∷ bytes) = let rest = status_line bytes in if b == 10 then [] else b ∷ rest

unfoldable pub contains_bytes : Bytes → Bytes → Bool
contains_bytes part [] = starts_with part []
contains_bytes part (b ∷ bytes) = starts_with part (b ∷ bytes) || contains_bytes part bytes

-- The status line is sought in the lossy reading of the answer.
unfoldable pub connect_via_http_connect : (Bytes → Bytes) → Bytes → ℕ → Talk (Unit {0})
unfolding request read_http_header status_line contains_bytes
connect_via_http_connect lossy target_host target_port = do
  write_all (request target_host target_port)
  response ← read_http_header lossy
  require (contains_bytes (codes " 200 ") (status_line response))
      (AppError.remote "HTTP CONNECT 代理连接失败")
