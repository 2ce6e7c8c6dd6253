-- ===== src/Catalog.antt =====
-- src/catalog.rs: the Addressables binary catalog. Reader, parser, selection; proofs in the children.
pub mod Types
pub mod Utf16
pub mod Reader
pub mod Parse
pub mod Worklist
pub mod Closure
pub mod Keys
pub mod Select
pub mod Search
pub mod Selected
pub mod Refusals
