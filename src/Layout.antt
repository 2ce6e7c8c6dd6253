-- ===== src/Layout.antt =====
-- src/stable_layout.rs: the readable storage keys of an export, planned in catalog order.
pub mod Chars
pub mod Types
pub mod Classes
pub mod Names
pub mod Safe
pub mod Clones
pub mod Keys
pub mod Stems
pub mod Tracks
pub mod Claim
pub mod Runs
pub mod Textures
pub mod Plan
pub mod Taken
pub mod Claims
pub mod Decimal
pub mod Rounds
pub mod Steps
pub mod Aliases
pub mod Validity
pub mod Ends
pub mod Sequence
pub mod Planned
pub mod Complete
