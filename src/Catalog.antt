-- ===== src/Catalog.antt =====
-- src/recommendationservice/catalog_kv.py: the versioned recommendation catalog in a shared bucket.
pub mod Records
pub mod Sets
pub mod Apply
pub mod Versions
pub mod Agreement
pub mod Snapshot
pub mod Selection
pub mod Seeding
