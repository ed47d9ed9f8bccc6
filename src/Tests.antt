-- ===== src/Tests.antt =====
-- Runs at concrete inputs.
pub mod Heart
pub mod Runs
pub mod Access
pub mod Sudo
pub mod Curation
pub mod Faults
pub mod Identity
pub mod Storage
pub mod Oidc
pub mod Events
pub mod Journal
pub mod Telemetry
pub mod Extraction
pub mod Logging
pub mod Runner
pub mod Admission
