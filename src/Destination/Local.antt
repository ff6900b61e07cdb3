-- ===== src/Destination/Local.antt =====
-- `LocalDestination` of src/destination.rs: a directory of the local file system.
pub mod Lawful
use reposync.Base.{List, ◌++◌, Text, lit}
use reposync.Base.Crates.{Reader}
use reposync.World.{Io, pure, ◌>>◌}
use reposync.World.Files.{components, parent, create_dirs, create_dir_all, write_file, remove_file}
use reposync.Destination.{Destination}

pub record LocalDestination : Type 0 where
  pub path : Text

-- `LocalDestination::new`
unfoldable pub new : Text → Io LocalDestination
unfolding create_dir_all
new path = do create_dir_all path; pure (record { path = path })

-- The path of a file; `components` says how the names `.` and `..` in it are read.
unfoldable pub local_path : LocalDestination → Text → Text
unfolding lit
local_path d path = d.path ++ lit "/" ++ path

unfoldable pub upload : LocalDestination → Text → Reader → Io (Unit {0})
unfolding local_path create_dirs write_file
upload d path file = do
  create_dirs (parent (components (local_path d path)))
  write_file (local_path d path) file
  pure tt

unfoldable pub delete : LocalDestination → Text → Io (Unit {0})
unfolding local_path remove_file
delete d path = remove_file (local_path d path)

unfoldable pub invalidate : LocalDestination → List Text → Io (Unit {0})
invalidate d paths = pure tt

-- `impl Destination for LocalDestination`
unfoldable pub local_destination : LocalDestination → Destination
unfolding upload delete invalidate
local_destination d = record {
  upload = upload d;
  delete = delete d;
  invalidate = invalidate d;
  name = lit "local";
}
