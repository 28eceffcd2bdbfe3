-- ===== src/Proxy.antt =====
-- proxy/: the TCP proxy that applies the configured faults.
pub mod Error
pub mod RespUtil
pub mod Net
pub mod Faulter
pub mod Relay
pub mod Connection
