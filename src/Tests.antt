-- ===== src/Tests.antt =====
-- Concrete values for the parts of glyff, and the theorems applied to them.
mod Data
mod Values
mod Paths
mod Stores
mod Calls
mod Sessions
mod Migrations
mod Engraved
mod Codecs
mod Durable
mod Documents
