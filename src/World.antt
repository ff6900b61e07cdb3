-- ===== src/World.antt =====
-- What the program acts on: the local file system, the source's web server and the cloud storage.
-- The answers of the three are functions of the number of the call, so that a theorem holds for
-- every server and for every pattern of faults. `std::fs` is modelled by its documented behaviour.
mod Defs
pub mod Preorder
pub mod Bind
pub mod Files
unfoldable pub use Defs.*
