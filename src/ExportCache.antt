-- ===== src/ExportCache.antt =====
-- src/export_cache.rs: the cache of decoded resources, whose budget evicts the oldest entries.
pub mod Types
pub mod Room
pub mod Copy
pub mod Store
pub mod Open
pub mod Oldest
pub mod Evictions
pub mod Recency
pub mod Accounts
pub mod Invariant
pub mod History
pub mod Tracked
pub mod Listing
pub mod Scan
pub mod Unscanned
pub mod Pruned
pub mod Copies
pub mod Reuse
