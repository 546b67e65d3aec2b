-- ===== src/Host.antt =====
-- What the program runs on and does not implement: the operating system, the Kubernetes API server
-- behind `kube`, HTTP servers behind `reqwest`, and the crates `sha2`, `base64` and `serde_json`.
-- Every operation takes the state that it may change and returns the new one.
pub mod World
pub mod Io
pub mod Env
pub mod Backoff
pub mod Disk
pub mod Memory
pub mod Smooth
