-- ===== src/Triggers.antt =====
-- src/recommendationservice/nats_events.py: recommendation triggers, from a fetched batch of messages
-- to the settlement of each message.
pub mod Decode
pub mod Newest
pub mod Batch
pub mod Explained
pub mod Conservation
pub mod Freshness
pub mod CatalogEvents
pub mod Cache
