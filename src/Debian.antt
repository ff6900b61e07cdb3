-- ===== src/Debian.antt =====
-- src/debian.rs: the index files of a Debian repository.
pub mod Packages
pub mod Release
pub mod Fetch
