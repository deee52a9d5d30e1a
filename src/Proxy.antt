-- ===== src/Proxy.antt =====
-- internal/proxy: the fail-closed resolver of original destinations, and the relay.
pub mod Resolver
pub mod Relay
pub mod Splice
pub mod Redirected
mod Tests
