-- ===== src/Capture.antt =====
-- internal/capture: the pcapng writer, the names of its files, and their retention.
pub mod Size
pub mod Packet
pub mod Writer
pub mod Live
pub mod Retention
pub mod RunName
pub mod Create
mod Tests
