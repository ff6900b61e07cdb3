-- ===== src/Sync/Copy.antt =====
-- `copy` and `copy_internal` of src/sync.rs: each file is fetched or opened, validated and uploaded.
pub mod Uploaded
pub mod Steps
pub mod Kept
use reposync.Base.{
  none, some, Option, List, [], ◌∷◌, ◌++◌, Text, lit, length, ◌==◌, ℕ_eq, if◌then◌else◌,
}
use reposync.Base.Outcome.{Outcome, ok, err, panic, io_error, invalid_data, other}
use reposync.Base.Crates.{Crates, Reader}
use reposync.Packages.{matches}
use reposync.World.{Io, pure, throw, abort, lift, try, unwrap, with_context, ◌>>=◌, ◌>>◌}
use reposync.World.Files.{fs_call, open_file, create_dir_all}
use reposync.Fetcher.{Fetcher, FetchError}
use reposync.Destination.{Destination}
use reposync.Sync.Diff.{CopyOperation}

-- `io::copy` into the temporary file, which has no name in the file system.
spool : Reader → Io Reader
unfolding fs_call
spool reader = do
  fs_call
  elim reader.failure [
    | none ↦ pure (record { content = reader.content; failure = none })
    | some e ↦ throw (io_error other e)
  ]

fetched : Text → Outcome FetchError Reader → Io Reader
unfolding spool lit
fetched path (ok reader) = do unwrap fs_call; spool reader
fetched path (err e) =
    throw (io_error other (lit "cannot copy file '" ++ path ++ lit "': " ++ e.error))
fetched path panic = abort

obtain_from : Text → Fetcher → Text → Option Text → Io Reader
unfolding fetched open_file
obtain_from source_endpoint fetcher path (some local_file) =
    with_context (lit "cannot copy file '" ++ local_file ++ lit "': ") (open_file local_file)
obtain_from source_endpoint fetcher path none = do
  r ← try (fetcher (source_endpoint ++ lit "/" ++ path))
  fetched path r

-- The file of an operation: the stored index, or the package from the source.
pub obtain : Text → Fetcher → CopyOperation → Io Reader
unfolding obtain_from
obtain source_endpoint fetcher operation =
    obtain_from source_endpoint fetcher operation.path operation.local_file

module _ ⦃lib : Crates⦄ where
  -- The two checks before an upload: the hash, and the length of the file.
  pub validated : CopyOperation → Reader → Io (Unit {0})
  unfolding matches fs_call
  validated operation tmp_file = do
    matching ← lift (matches operation.hash tmp_file)
    if matching
        then (do
          fs_call
          if operation.size == length tmp_file.content
              then pure tt
              else throw (
                  io_error invalid_data
                    (lit "invalid file size for '" ++ operation.path ++ lit "'")))
        else throw (
            io_error invalid_data (lit "failed hash validation for '" ++ operation.path ++ lit "'"))

  -- The body of the loop.
  pub copy_one : Text → Fetcher → Destination → CopyOperation → Io (Unit {0})
  unfolding obtain validated
  copy_one source_endpoint fetcher destination operation = do
    tmp_file ← obtain source_endpoint fetcher operation
    validated operation tmp_file
    fs_call
    destination.upload operation.path tmp_file

  -- The loop; what it returns are the paths to invalidate.
  copy_loop : Text → Fetcher → Destination → List CopyOperation → Io (List Text)
  unfolding copy_one
  copy_loop source_endpoint fetcher destination [] = pure []
  copy_loop source_endpoint fetcher destination (operation ∷ rest) = do
    copy_one source_endpoint fetcher destination operation
    paths ← copy_loop source_endpoint fetcher destination rest
    pure (if operation.is_replace then operation.path ∷ paths else paths)

  -- `SyncManager::copy_internal`
  unfoldable pub copy_internal :
      Text → Text → Fetcher → Destination → List CopyOperation → Io (List Text)
  unfolding copy_loop create_dir_all
  copy_internal tmp_path source_endpoint fetcher destination copy_list = do
    unwrap (create_dir_all tmp_path)
    copy_loop source_endpoint fetcher destination copy_list

  -- `SyncManager::copy`
  unfoldable pub copy : Text → Text → Fetcher → Destination → List CopyOperation → Io (List Text)
  unfolding copy_internal
  copy tmp_path source_endpoint fetcher destination copy_list =
      with_context
        (lit "failed to copy " ++ source_endpoint ++ lit " to " ++ destination.name ++ lit ": ")
        (copy_internal tmp_path source_endpoint fetcher destination copy_list)
