-- ===== src/Heart.antt =====
-- The Heart: the tick loop and what it is composed of (src/ansina/heart/tick).
pub mod Decision
pub mod Snapshot
pub mod Tick
pub mod Curation
pub mod Faults
pub mod Journal
pub mod Escalation
pub mod Intervene
pub mod Extraction
pub mod Triage
