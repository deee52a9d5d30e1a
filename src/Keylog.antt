-- ===== src/Keylog.antt =====
-- internal/keylog: the NSS line format, the deduplicating writer and the socket server.
pub mod Fields
pub mod Hex
pub mod Nss
pub mod Append
pub mod Socket
pub mod Server
pub mod Tests
