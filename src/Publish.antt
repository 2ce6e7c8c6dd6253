-- ===== src/Publish.antt =====
-- src/storage.rs: the publication of a stable layout, which updates a tree of objects in place.
pub mod Types
pub mod Stable
pub mod Held
pub mod Manifests
pub mod Published
pub mod Written
pub mod Renewed
pub mod Failed
