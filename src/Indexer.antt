-- ===== src/Indexer.antt =====
-- internal/indexer: fetching, synchronizing and polling.
pub mod Syncer
pub mod Plan
pub mod Once
pub mod Fetcher
pub mod Ranger
pub mod Runner
