-- ===== src/Opencode.antt =====
-- OpenCode as the executor: src/ansina/opencode.
pub mod Events
pub mod Run
pub mod Repository
pub mod Service
pub mod Intervention
pub mod Policy
pub mod Runner
