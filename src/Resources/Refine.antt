-- ===== src/Resources/Refine.antt =====
-- src/resources.rs, process_resource: its effect on a folder, against an abstract specification. The
-- abstract store of a folder gives each file name the digest of what the file holds.
pub mod Store
pub mod Keys
pub mod Sync
pub mod Moved
pub mod Lookup
