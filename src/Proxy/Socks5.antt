-- ===== src/Proxy/Socks5.antt =====
-- The two sides of SOCKS5 in src-tauri/src/remote/proxy.rs: the client `connect_via_socks5` and the server
-- `handle_socks5`. The text of an IP address is left to the standard library.
pub mod RoundTrip
use hlem_ssh.Prelude.{
  ℕ, ◌+◌, ◌*◌, ◌/◌, ◌%◌, Bool, true, false, not, ◌&&◌, List, [], ◌∷◌, ◌++◌, length, any, ltb, ◌==◌,
  if◌then◌else◌,
}
use hlem_ssh.Prelude.Text.{Bytes}
use hlem_ssh.Prelude.Utf8.{is_utf8}
use hlem_ssh.Proxy.Wire.{
  AppError, Answer, Wire, Talk, ◌>>=◌, ◌>>◌, give, fail, require, read_exact, write_all, byte,
}

-- A target: the four or sixteen bytes of an address, or a name.
pub data Host : Type 0 where
  ipv4 domain ipv6 : Bytes → Host

abbrev pub reply : ℕ → Bytes
reply code = 5 ∷ code ∷ 0 ∷ 1 ∷ 0 ∷ 0 ∷ 0 ∷ 0 ∷ 0 ∷ 0 ∷ []

abbrev pub refuse {ℓ} : {A : Type ℓ} → Bytes → AppError → Talk A
refuse bytes e = write_all bytes >> fail e

-- `if !test { write; return Err }`
abbrev pub require_or : Bool → Bytes → AppError → Talk (Unit {0})
require_or test bytes e = if test then give tt else refuse bytes e

unfoldable pub read_name : Talk Host
read_name = do
  len ← read_exact 1
  require (not (byte 0 len == 0)) (AppError.remote "SOCKS5 目标主机名为空")
  name ← read_exact (byte 0 len)
  require (is_utf8 name) (AppError.remote "SOCKS5 目标主机名不是 UTF-8")
  give (Host.domain name)

abbrev read_address : ℕ → (Bytes → Host) → Talk Host
read_address n host = do addr ← read_exact n; give (host addr)

unfoldable pub read_host : ℕ → Talk Host
unfolding read_name
read_host kind =
    if kind == 1
    then read_address 4 Host.ipv4
    else if kind == 3
    then read_name
    else if kind == 4
    then read_address 16 Host.ipv6
    else refuse (reply 8) (AppError.remote "SOCKS5 地址类型不支持")

unfoldable pub greet : Talk (Unit {0})
greet = do
  greeting ← read_exact 2
  require (byte 0 greeting == 5) (AppError.remote "仅支持 SOCKS5")
  methods ← read_exact (byte 1 greeting)
  require_or (any (λ m. m == 0) methods) (5 ∷ 0xff ∷ []) (AppError.remote "SOCKS5 客户端未提供无认证方式")
  write_all (5 ∷ 0 ∷ [])

unfoldable pub read_port : Talk ℕ
read_port = do
  bytes ← read_exact 2
  let port = byte 0 bytes * 256 + byte 1 bytes
  require (not (port == 0)) (AppError.remote "SOCKS5 目标端口无效")
  give port

-- The handshake of `handle_socks5`, up to the timeout around it.
unfoldable pub handshake : Talk (Host × ℕ)
unfolding greet read_host read_port
handshake = do
  greet
  header ← read_exact 4
  require (byte 0 header == 5) (AppError.remote "SOCKS5 请求版本无效")
  require_or (byte 1 header == 1) (reply 7) (AppError.remote "SOCKS5 仅支持 CONNECT")
  host ← read_host (byte 3 header)
  port ← read_port
  give (host, port)

-- Then the channel is opened, and the client is told; `opens` is the answer of the SSH server.
unfoldable pub handle_socks5 : (Host → ℕ → Bool) → Talk (Host × ℕ)
unfolding handshake
handle_socks5 opens = do
  (host, port) ← handshake
  if opens host port
      then (write_all (reply 0) >> give (host, port))
      else refuse (reply 5) (AppError.remote "channel open failure")

unfoldable pub connect_request : Bytes → ℕ → Bytes
connect_request host port =
    5 ∷ 1 ∷ 0 ∷ 3 ∷ (length host % 256) ∷ host ++ (port / 256) ∷ (port % 256) ∷ []

abbrev pub skip {ℓ} : {A : Type ℓ} → Talk A → Talk (Unit {0})
skip m = m >>= λ _. give tt

abbrev skip_name : Talk (Unit {0})
skip_name = do len ← read_exact 1; skip (read_exact (byte 0 len))

-- The bound address of the reply is read and forgotten.
unfoldable pub skip_address : ℕ → Talk (Unit {0})
skip_address kind =
    if kind == 1
    then skip (read_exact 4)
    else if kind == 3
    then skip_name
    else if kind == 4
    then skip (read_exact 16)
    else fail (AppError.remote "SOCKS5 代理返回了不支持的地址类型")

unfoldable pub converse : Bytes → ℕ → Talk (Unit {0})
unfolding connect_request skip_address
converse target_host target_port = do
  write_all (5 ∷ 1 ∷ 0 ∷ [])
  response ← read_exact 2
  require (byte 0 response == 5 && byte 1 response == 0) (AppError.remote "SOCKS5 代理拒绝无认证连接")
  write_all (connect_request target_host target_port)
  header ← read_exact 4
  require (byte 0 header == 5 && byte 1 header == 0) (AppError.remote "SOCKS5 代理连接失败")
  skip_address (byte 3 header)
  skip (read_exact 2)

-- On the stream to the proxy, which `connect_tcp_with_timeout` has opened.
unfoldable pub connect_via_socks5 : Bytes → ℕ → Talk (Unit {0})
unfolding converse
connect_via_socks5 target_host target_port =
    if ltb 255 (length target_host)
    then fail (AppError.invalid_input "SOCKS5 目标主机名过长")
    else converse target_host target_port
