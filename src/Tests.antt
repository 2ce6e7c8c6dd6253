-- ===== src/Tests.antt =====
-- The theorems at concrete inputs, each file on the component of its name; Sample holds shared data.
mod Sample
pub mod Jobs
pub mod Ledger
pub mod Catalog
pub mod Assets
pub mod Snapshot
pub mod Layout
pub mod ExportCache
pub mod Publish
pub mod Admission
