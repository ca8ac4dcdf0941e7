-- ===== src/Logging.antt =====
-- What the application writes to its log (src/infrastructure/logging).
pub mod Sanitizer
pub mod Secrets
pub mod Size
pub mod Tests
