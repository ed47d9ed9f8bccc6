-- ===== src/Logging.antt =====
-- What the daemon writes to its log: src/ansina/logging.
pub mod Redaction
