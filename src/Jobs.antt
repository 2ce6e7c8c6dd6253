-- ===== src/Jobs.antt =====
-- src/jobs.rs: the durable job ledger. Types, ledger upkeep, operations; proofs in the children.
pub mod Types
pub mod Ledger
pub mod Transitions
pub mod Store
pub mod Open
pub mod Calls
pub mod Lifecycle
pub mod Cases
pub mod Steps
pub mod Counts
pub mod Slots
pub mod Notices
pub mod Reservation
pub mod Room
pub mod Retention
pub mod Claims
pub mod Durability
pub mod Atomicity
pub mod History
pub mod Identity
pub mod Delivery
pub mod Recovery
pub mod Resubmission
