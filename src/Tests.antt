-- ===== src/Tests.antt =====
-- Runs of the program on small data, and the theorems at that data.
pub mod Data
pub mod Indexes
pub mod Mirror
pub mod Parts
pub mod Planned
pub mod Processes
pub mod Schedule
pub mod Stored
pub mod Whole
pub mod Tally
pub mod Wire
pub mod Directory
