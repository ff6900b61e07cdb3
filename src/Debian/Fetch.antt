-- ===== src/Debian/Fetch.antt =====
-- `fetch_repository_internal`, `fetch_repository` and `load_repository` of src/debian.rs.
pub mod Kept
use reposync.Base.{
  ℕ, Bool, true, false, ◌&&◌, Option, none, some, List, [], ◌∷◌, ◌++◌, Text, lit, ends_with, ◌==◌,
  ℕ_eq, if◌then◌else◌,
}
use reposync.Base.Outcome.{Outcome, ok, err, panic, IoError, io_error, invalid_data, not_found}
use reposync.Base.Crates.{Crates, Reader}
use reposync.Config.Data.{RepositoryConfig}
use reposync.Packages.{
  Package, IndexFile, Collection, Repository, Signature, pgp_embedded, pgp_external, unsigned,
  create_sha256_hash, read_text,
}
use reposync.World.{Io, pure, throw, abort, lift, try, with_context, ◌>>=◌}
use reposync.State.{
  MetadataStore, SavedRepoMetadataStore, LiveRepoMetadataStore, saved_store, live_store, live_new,
}
use reposync.Fetcher.{Fetcher}
use reposync.Utils.{add_optional_index, expect, kind_eq}
use reposync.Debian.Packages.{parse_packages}
use reposync.Debian.Release.{parse_release}

module _ ⦃lib : Crates⦄ (state : MetadataStore) where
  -- The signature of the Release file, from its reader.
  release_signature : Option Reader → Io Signature
  unfolding read_text
  release_signature none = pure unsigned
  release_signature (some reader) = do text ← lift (read_text reader); pure (pgp_external text)

  -- The loop over `release.indexes`: each is stored, its size checked, and the packages are read
  -- from those that are called Packages.
  index_loop : List IndexFile → Io (List IndexFile × List Package)
  unfolding parse_packages
  index_loop [] = pure ([], [])
  index_loop (index ∷ rest) = do
    (disk_path, reader, size) ← state.fetch index.path
    if index.size == size
        then (do
          packages ←
              (if ends_with index.path (lit "Packages")
                then lift (parse_packages reader)
                else pure [])
          (indexes, more) ← index_loop rest
          pure (record index { file_path = disk_path } ∷ indexes, packages ++ more))
        else throw (io_error invalid_data (lit "wrong file size for '" ++ index.path ++ lit "'"))

  -- One version, once its Release file is there.
  version_collection : Text → Text → Text → Text × Reader × ℕ → Io Collection
  unfolding release_signature index_loop parse_release add_optional_index expect create_sha256_hash
  version_collection version_codename version_path path (disk_path, reader, size) = do
    release ← lift (parse_release reader version_path)
    (_, embedded) ← add_optional_index state (version_path ++ lit "/InRelease") [] pgp_embedded
    (found, optional) ←
        add_optional_index state (version_path ++ lit "/Release.gpg") embedded unsigned
    again ← state.read path
    stored ← expect again
    signature ← release_signature found
    hash ← lift (create_sha256_hash stored)
    let first : IndexFile = record {
      file_path = disk_path;
      path = path;
      size = size;
      hash = hash;
      signature = signature;
    }
    (indexes, packages) ← index_loop release.indexes
    pure (record {
      target = record { release_name = version_codename; architectures = release.architectures };
      indexes = (first ∷ optional) ++ indexes;
      packages = packages;
    })

  -- Whether a version is skipped: only if its Release file is missing, and only when the stored
  -- state is loaded.
  skip_version : Bool → IoError → Bool
  skip_version allow_empty e = allow_empty && e.kind == not_found

  -- `continue` for a version that is skipped.
  version_found : Bool → Text → Outcome IoError (Text × Reader × ℕ) → Io (Option Collection)
  unfolding version_collection skip_version
  version_found allow_empty version_codename (ok fetched) =
      let version_path = lit "dists/" ++ version_codename in
      do
        c ←
            version_collection version_codename version_path (version_path ++ lit "/Release")
              fetched
        pure (some c)
  version_found allow_empty version_codename (err e) =
      if skip_version allow_empty e then pure none else throw e
  version_found allow_empty version_codename panic = abort

  push : Option Collection → List Collection → List Collection
  push none cs = cs
  push (some c) cs = c ∷ cs

  -- The loop over `config.versions`.
  version_loop : Bool → List Text → Io (List Collection)
  unfolding version_found push
  version_loop allow_empty [] = pure []
  version_loop allow_empty (version_codename ∷ rest) = do
    result ← try (state.fetch (lit "dists/" ++ version_codename ++ lit "/Release"))
    found ← version_found allow_empty version_codename result
    more ← version_loop allow_empty rest
    pure (push found more)

  -- `fetch_repository_internal`
  unfoldable pub fetch_repository_internal : RepositoryConfig → Bool → Io Repository
  unfolding version_loop
  fetch_repository_internal config allow_empty = do
    collections ← version_loop allow_empty config.versions
    pure (record { name = config.name; collections = collections })

module _ ⦃lib : Crates⦄ where
  unfoldable pub fetch_repository :
      Fetcher → Text → RepositoryConfig → Io (Repository × LiveRepoMetadataStore)
  unfolding fetch_repository_internal live_new live_store
  fetch_repository fetcher tmp_path config = do
    repo_metadata ← live_new config.source.endpoint tmp_path fetcher
    repo ←
        with_context (lit "cannot fetch repo state: ")
          (fetch_repository_internal (live_store repo_metadata) config false)
    pure (repo, repo_metadata)

  unfoldable pub load_repository :
      Text → RepositoryConfig → Io (Repository × SavedRepoMetadataStore)
  unfolding fetch_repository_internal saved_store
  load_repository data_path config =
      let repo_metadata : SavedRepoMetadataStore = record { directory = data_path } in
      do
        repo ←
            with_context (lit "cannot load current repo state: ")
              (fetch_repository_internal (saved_store repo_metadata) config true)
        pure (repo, repo_metadata)
