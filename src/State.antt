-- ===== src/State.antt =====
-- src/state.rs: the stored indexes of a repository, and those that are being downloaded.
pub mod Replace
pub mod Kept
pub mod Outside
pub mod Replaced
use reposync.Base.{
  ℕ, Bool, true, false, Option, none, some, Text, lit, length, ◌++◌, ◌==◌, ℕ_eq, contains_text,
  if◌then◌else◌,
}
use reposync.Base.Outcome.{Outcome, Result, ok, err, panic, IoError, io_error, not_found, other}
use reposync.Base.Crates.{Crates, Reader}
use reposync.World.{World, Io, pure, throw, abort, try, unwrap, ◌>>=◌, ◌>>◌}
use reposync.World.Files.{fs_call, open_file, create_dir_all, write_file, remove_dir_all, rename}
use reposync.Fetcher.{Fetcher, FetchError}

-- `trait RepoMetadataStore`: `fetch` gives the path on the disk, the content and its size.
pub record MetadataStore : Type 0 where
  pub fetch : Text → Io (Text × Reader × ℕ)
  pub read : Text → Io (Option Reader)

pub record SavedRepoMetadataStore : Type 0 where
  pub directory : Text

pub record LiveRepoMetadataStore : Type 0 where
  pub repo_base_url : Text
  pub tmp_directory : Text
  pub fetcher : Fetcher

module _ ⦃lib : Crates⦄ where
  -- `format!("{}/{}", directory, base32)`
  unfoldable pub disk_path : Text → Text → Text
  unfolding lit
  disk_path directory path = directory ++ lit "/" ++ lib.base32 path

  -- `SavedRepoMetadataStore::fetch`
  unfoldable pub saved_fetch : SavedRepoMetadataStore → Text → Io (Text × Reader × ℕ)
  unfolding disk_path open_file fs_call
  saved_fetch store path = do
    let file_path = disk_path store.directory path
    file ← open_file file_path
    fs_call
    pure (file_path, file, length file.content)

  -- `SavedRepoMetadataStore::read`
  unfoldable pub saved_read : SavedRepoMetadataStore → Text → Io (Option Reader)
  unfolding saved_fetch
  saved_read store path = do found ← saved_fetch store path; pure (some found.1)

  unfoldable pub saved_store : SavedRepoMetadataStore → MetadataStore
  unfolding saved_fetch saved_read
  saved_store store = record { fetch = saved_fetch store; read = saved_read store }

  -- The result of a download, as `LiveRepoMetadataStore::fetch` goes on from it.
  live_stored : Text → Text → Outcome FetchError Reader → Io (Text × Reader × ℕ)
  unfolding write_file open_file
  live_stored path file_path (ok reader) = do
    size ← write_file file_path reader
    file_reader ← unwrap (open_file file_path)
    pure (file_path, file_reader, size)
  live_stored path file_path (err e) = throw (
      if e.code == 404
      then io_error not_found (lit "file not found '" ++ path ++ lit "'")
      else io_error other (lit "cannot fetch file '" ++ path ++ lit "': " ++ e.error))
  live_stored path file_path panic = abort

  -- `LiveRepoMetadataStore::fetch`
  unfoldable pub live_fetch : LiveRepoMetadataStore → Text → Io (Text × Reader × ℕ)
  unfolding live_stored create_dir_all disk_path
  live_fetch store path = do
    create_dir_all store.tmp_directory
    result ← try (store.fetcher (store.repo_base_url ++ lit "/" ++ path))
    live_stored path (disk_path store.tmp_directory path) result

  opened : Outcome IoError Reader → Io (Option Reader)
  opened (ok file) = pure (some file)
  opened (err e) = pure none
  opened panic = abort

  -- `LiveRepoMetadataStore::read`
  unfoldable pub live_read : LiveRepoMetadataStore → Text → Io (Option Reader)
  unfolding opened open_file disk_path
  live_read store path = do file ← try (open_file (disk_path store.tmp_directory path)); opened file

  unfoldable pub live_store : LiveRepoMetadataStore → MetadataStore
  unfolding live_fetch live_read
  live_store store = record { fetch = live_fetch store; read = live_read store }

is_ok : {E A : Type 0} → Outcome E A → Bool
is_ok (ok a) = true
is_ok (err e) = false
is_ok panic = false

-- `File::open(path).is_ok()`
unfoldable pub exists : Text → Io Bool
unfolding is_ok open_file
exists path = do r ← try (open_file path); pure (is_ok r)

-- `LiveRepoMetadataStore::new`: what an earlier run left is removed.
unfoldable pub live_new : Text → Text → Fetcher → Io LiveRepoMetadataStore
unfolding exists remove_dir_all contains_text
live_new repo_base_url tmp_directory fetcher =
    if contains_text tmp_directory (lit "tmp")
    then (do
      left ← exists tmp_directory
      if left then remove_dir_all tmp_directory else pure tt
      pure (record {
        repo_base_url = repo_base_url;
        tmp_directory = tmp_directory;
        fetcher = fetcher;
      }))
    else abort

-- `LiveRepoMetadataStore::replace`
unfoldable pub replace : LiveRepoMetadataStore → Text → Io (Unit {0})
unfolding exists rename remove_dir_all
replace store path = do
  let tmp_dir = path ++ lit "__"
  existed ← exists path
  if existed then rename path tmp_dir else pure tt
  rename store.tmp_directory path
  if existed then remove_dir_all tmp_dir else pure tt
