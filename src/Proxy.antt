-- ===== src/Proxy.antt =====
-- Connections through proxies, and the SOCKS5 server of a dynamic tunnel (src-tauri/src/remote/proxy.rs).
pub mod Wire
pub mod Socks5
pub mod Http
pub mod Examples
