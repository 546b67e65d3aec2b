-- ===== src/Resources.antt =====
-- src/resources.rs
pub mod Cache
pub mod Update
pub mod Process
pub mod List
pub mod Frame
pub mod Maps
pub mod Stale
pub mod Pass
pub mod Gate
pub mod Paging
pub mod Removal
pub mod Content
pub mod Watch
pub mod Events
pub mod Watcher
pub mod Replay
pub mod Connection
pub mod Skips
pub mod Refine
pub mod Edits
pub mod Fetch
pub mod Touches
