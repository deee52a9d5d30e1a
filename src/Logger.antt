-- ===== src/Logger.antt =====
-- internal/shared/logger: the limiter of repeated records, and the keys that are masked.
pub mod Limit
pub mod Redact
pub mod Attrs
mod Tests
