-- ===== src/Sync/Manager/Permissions.antt =====
-- `SyncManager::check_permissions` of src/sync.rs.
pub mod Checked
use reposync.Base.{Bool, true, false, Option, none, some, Text, lit, ◌++◌}
use reposync.Base.Outcome.{io_error, invalid_data}
use reposync.Config.Data.{GeneralConfig}
use reposync.World.{Io, Node, dir, file, pure, throw, with_world, ◌>>=◌, ◌>>◌}
use reposync.World.Files.{open_file, fs_call, node, components}

-- `is_dir` of the metadata, and `readonly` of its permissions. What has been opened is there.
metadata_check : Text → Option Node → Bool → Io (Unit {0})
metadata_check path (some dir) false = pure tt
metadata_check path (some dir) true =
    throw (
      io_error invalid_data (lit "expected write access, found read-only for '" ++ path ++ lit "'"))
metadata_check path _ read_only =
    throw
      (io_error invalid_data (lit "expected directory, found file instead '" ++ path ++ lit "'"))

-- `check_writable`: `File::open`, and then `File::metadata`.
check_writable : Text → Io (Unit {0})
unfolding metadata_check open_file fs_call
check_writable path = do
  open_file path
  fs_call
  with_world
      (λ w. metadata_check path (node w.fs (components path)) (w.read_only (components path)))

unfoldable pub check_permissions : GeneralConfig → Io (Unit {0})
unfolding check_writable
check_permissions general = do check_writable general.data_path; check_writable general.tmp_path
