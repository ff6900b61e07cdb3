-- ===== src/Sync/Manager.antt =====
-- `SyncManager` of src/sync.rs: one synchronisation of one repository.
pub mod Locked
pub mod Permissions
pub mod Kept
pub mod Validated
use reposync.Base.{
  ◌&&◌, Option, none, some, List, [], ◌∷◌, ◌++◌, Text, lit, find, ◌==◌, is_empty, text_eq,
  if◌then◌else◌,
}
use reposync.Base.Outcome.{
  Outcome, Result, invalid_data, ok, err, panic, IoError, io_error, not_found, would_block,
}
use reposync.Base.Crates.{Crates}
use reposync.Config.Data.{Config, GeneralConfig, RepositoryConfig}
use reposync.Config.Load.{get_authorization_secret, parse_public_key}
use reposync.Packages.{IndexFile, Collection, Repository, signature_matches}
use reposync.World.{World, Io, pure, abort, lift, unwrap, with_context, ◌>>=◌, ◌>>◌}
use reposync.World.Files.{open_file}
use reposync.State.{LiveRepoMetadataStore, SavedRepoMetadataStore, replace, exists}
use reposync.Fetcher.{Fetcher, create_chain}
use reposync.Destination.{Destination}
use reposync.Destination.Create.{create_destination}
use reposync.Locks.{SyncLocks, lock_sync, drop}
use reposync.Debian.Fetch as Debian
use reposync.Redhat.Fetch as Redhat
use reposync.Sync.Diff.{Plan, DeleteOperation, repo_diff}
use reposync.Sync.Copy.{copy}

-- `get_repo_config`
unfoldable pub get_repo_config : Config → Text → Option RepositoryConfig
get_repo_config config repo_name = find (λ x. x.name == repo_name) config.repo

abbrev pub data_path : GeneralConfig → RepositoryConfig → Text
data_path general repo = general.data_path ++ lit "/" ++ repo.name

abbrev pub tmp_path : GeneralConfig → RepositoryConfig → Text
tmp_path general repo = general.data_path ++ lit "/tmp_" ++ repo.name ++ lit "/"

module _ ⦃lib : Crates⦄ where
  -- `load_current`; the write lock that it holds meanwhile is not modelled.
  unfoldable pub load_current :
      GeneralConfig → RepositoryConfig → Io (Repository × SavedRepoMetadataStore)
  unfolding Debian.load_repository Redhat.load_repository exists
  load_current general repo = do
    found ← exists (data_path general repo)
    if found
        then (if repo.source.kind == lit "debian"
            then Debian.load_repository (data_path general repo) repo
            else if repo.source.kind == lit "redhat"
            then Redhat.load_repository (data_path general repo) repo
            else abort)
        else pure (
          record { name = repo.name; collections = [] },
          record { directory = data_path general repo },
        )

  -- The error of a signature, whatever its kind was.
  validation : Text → Result (Unit {0}) → Result (Unit {0})
  validation path (ok x) = ok x
  validation path (err e) = err (
      io_error invalid_data
        (lit "cannot validate signature of '" ++ path ++ lit "': " ++ e.message))
  validation path panic = panic

  -- The loop that validates the signature of every index, if there is a key.
  unfoldable pub verify_indexes : Text → List IndexFile → Io (Unit {0})
  unfolding open_file validation
  verify_indexes public_key [] = pure tt
  verify_indexes public_key (index ∷ rest) = do
    reader ← unwrap (open_file index.file_path)
    lift (validation index.path (signature_matches index.signature public_key reader))
    verify_indexes public_key rest

  abbrev pub all_indexes : List Collection → List IndexFile
  all_indexes [] = []
  all_indexes (c ∷ cs) = c.indexes ++ all_indexes cs

  unfoldable pub validate : Option Text → Repository → Io (Unit {0})
  unfolding verify_indexes
  validate none repo = pure tt
  validate (some public_key) repo = verify_indexes public_key (all_indexes repo.collections)

  unfoldable pub delete_all : Destination → List DeleteOperation → Io (Unit {0})
  delete_all destination [] = pure tt
  delete_all destination (operation ∷ rest) = do
    destination.delete operation.path
    delete_all destination rest

  -- The copies, the invalidation and the deletions: packages before indexes, twice.
  unfoldable pub apply_plan : Text → Text → Fetcher → Destination → Plan → Io (Unit {0})
  unfolding delete_all copy
  apply_plan tmp_path endpoint fetcher destination plan = do
    package_paths ← copy tmp_path endpoint fetcher destination plan.packages_copy
    index_paths ← copy tmp_path endpoint fetcher destination plan.index_copy
    destination.invalidate (package_paths ++ index_paths)
    delete_all destination plan.packages_delete
    delete_all destination plan.index_delete

  unfoldable pub fetch_repository :
      GeneralConfig → Fetcher → RepositoryConfig → Io (Repository × LiveRepoMetadataStore)
  unfolding Debian.fetch_repository Redhat.fetch_repository
  fetch_repository general fetcher repo =
      if repo.source.kind == lit "debian"
      then Debian.fetch_repository fetcher (tmp_path general repo) repo
      else if repo.source.kind == lit "redhat"
      then Redhat.fetch_repository fetcher (tmp_path general repo) repo
      else abort

  -- Behind the early return: with nothing to copy the synchronisation ends there.
  unfoldable pub publish :
      GeneralConfig
      → RepositoryConfig
      → Fetcher
      → Destination
      → LiveRepoMetadataStore
      → Plan
      → Io (Unit {0})
  unfolding apply_plan replace
  publish general repo fetcher destination metadata_store plan =
      if is_empty plan.packages_copy && is_empty plan.index_copy then pure tt else do
        apply_plan general.tmp_path repo.source.endpoint fetcher destination plan
        replace metadata_store (data_path general repo)

  -- `sync_repo_internal`
  unfoldable pub sync_repo_internal :
      GeneralConfig → Fetcher → Destination → RepositoryConfig → Io (Unit {0})
  unfolding publish fetch_repository validate load_current repo_diff parse_public_key
  sync_repo_internal general fetcher destination repo_config = do
    (repo, metadata_store) ← fetch_repository general fetcher repo_config
    public_key ← lift (parse_public_key repo_config.source)
    validate public_key repo
    (current_repo, _) ← load_current general repo_config
    plan ← lift (repo_diff repo current_repo)
    publish general repo_config fetcher destination metadata_store plan

  -- Behind `get_repo_config`: the fetcher, the destination and the lock.
  sync_locked :
      SyncLocks
      → GeneralConfig
      → Fetcher
      → Destination
      → RepositoryConfig
      → World
      → Outcome IoError (Unit {0}) × World × SyncLocks
  unfolding sync_repo_internal lock_sync drop
  sync_locked locks general fetcher destination repo w =
      let (acquired, locks') = lock_sync locks repo.name in
      if acquired
      then (let (r, w') = sync_repo_internal general fetcher destination repo w in
          (r, w', drop locks' repo.name))
      else (err (io_error would_block (lit "sync already in progress")), w, locks')

  -- The parts of a synchronisation that are made before the lock is asked for.
  pub prepare : GeneralConfig → RepositoryConfig → Io (Fetcher × Destination)
  unfolding get_authorization_secret create_destination create_chain
  prepare general repo = do
    secret ← unwrap (get_authorization_secret repo.source)
    destination ← create_destination general repo.destination
    pure (create_chain general.max_retries secret, destination)

  prepared :
      SyncLocks
      → GeneralConfig
      → RepositoryConfig
      → Outcome IoError (Fetcher × Destination)
      → World
      → Outcome IoError (Unit {0}) × World × SyncLocks
  unfolding sync_locked
  prepared locks general repo (ok (fetcher, destination)) w =
      sync_locked locks general fetcher destination repo w
  prepared locks general repo (err e) w = (err e, w, locks)
  prepared locks general repo panic w = (panic, w, locks)

  -- `sync_repo`
  unfoldable pub sync_repo :
      SyncLocks → Config → Text → World → Outcome IoError (Unit {0}) × World × SyncLocks
  unfolding prepare prepared get_repo_config
  sync_repo locks config repo_name w = elim (get_repo_config config repo_name) [
    | none ↦
        (err (io_error not_found (lit "repository " ++ repo_name ++ lit " not found")), w, locks)
    | some repo ↦
        (let (r, w') = prepare config.general repo w in prepared locks config.general repo r w')
  ]

  -- `load_current_by_name`
  unfoldable pub load_current_by_name : Config → Text → Io (Option Repository)
  unfolding load_current get_repo_config
  load_current_by_name config repo_name = elim (get_repo_config config repo_name) [
    | none ↦ pure none
    | some repo ↦ (do (current, _) ← load_current config.general repo; pure (some current))
  ]
