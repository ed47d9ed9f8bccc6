-- ===== src/Telemetry.antt =====
-- Telemetry that the daemon spools on disk: src/ansina/telemetry.
pub mod Rotation
