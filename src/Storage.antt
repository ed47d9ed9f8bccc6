-- ===== src/Storage.antt =====
-- The database's schema: src/ansina/storage.
pub mod Migrator
