-- ===== src/Files.antt =====
-- The store of packages/glyff-file-store/src/glyff_file_store: one JSON document, in one file.
pub mod Document
pub mod Update
pub mod Client
pub mod Repository
pub mod Migrating
pub mod Commits
pub mod Replacing
