-- ===== src/Kubeapi.antt =====
-- src/kubeapi.rs
pub mod Items
pub mod Retry
pub mod Api
pub mod Watch
pub mod Client
