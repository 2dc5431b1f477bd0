-- ===== src/Migration.antt =====
-- packages/glyff/src/glyff/migration: carrying a session's records to another domain version.
pub mod Ids
pub mod Session
pub mod Rules
pub mod Runner
pub mod Chain
