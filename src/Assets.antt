-- ===== src/Assets.antt =====
-- src/assets.rs: the download plan and the bundle decryption; proofs in the children.
pub mod Plan
pub mod Served
pub mod Accounting
pub mod Folded
pub mod Decrypt
pub mod Prefix
pub mod Bundles
pub mod Priority
