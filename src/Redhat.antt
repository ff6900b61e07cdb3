-- ===== src/Redhat.antt =====
-- src/redhat.rs: the index files of a RedHat repository.
pub mod Xml
pub mod Fetch
