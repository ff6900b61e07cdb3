-- ===== src/Sync.antt =====
-- src/sync.rs: the synchronisation of a repository.
pub mod Diff
pub mod Copy
pub mod Files
pub mod Manager
pub mod Scheduler
pub mod Mirror
