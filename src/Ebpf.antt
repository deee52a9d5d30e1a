-- ===== src/Ebpf.antt =====
-- internal/ebpf: the byte-order codec of the maps shared with the eBPF programs.
pub mod Addr
pub mod Codec
pub mod Redirect
pub mod Loader
mod Tests
