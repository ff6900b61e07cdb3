-- ===== src/Sync/Mirror.antt =====
-- What one synchronisation of src/sync.rs leaves in the destination.
pub mod Applied
pub mod Mirrored
pub mod Bucket
pub mod Deleted
pub mod Untouched
pub mod Atomic
pub mod Ends
pub mod Authentic
pub mod Whole
pub mod Directory
