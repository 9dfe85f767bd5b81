-- ===== src/Catalog/Versions.antt =====
-- Versions in the bucket only grow: a record is never replaced by an older one, whatever other
-- replicas write in between.
pub mod Levels
pub mod Rounds
mod Index
pub mod Product
pub mod Snapshot
