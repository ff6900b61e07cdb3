-- ===== src/Config.antt =====
-- src/config.rs: the configuration file.
pub mod Data
pub mod Load
pub mod File
