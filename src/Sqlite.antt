-- ===== src/Sqlite.antt =====
-- The SQLite backend, packages/glyff-sqlite/src/glyff_sqlite.
pub mod Rows
pub mod Statements
pub mod Transaction
pub mod Atomic
pub mod Client
pub mod Options
pub mod Ranges
pub mod Commits
pub mod Repository
pub mod Migrating
