-- ===== src/Snapshot.antt =====
-- src/lib.rs: what a snapshot allows to be downloaded, and what a receipt says of it later.
pub mod Types
pub mod Target
pub mod Receipts
pub mod Offline
