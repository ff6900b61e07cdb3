-- ===== src/Redhat/Fetch.antt =====
-- `fetch_repository_internal`, `fetch_repository` and `load_repository` of src/redhat.rs.
pub mod Kept
use reposync.Base.{
  Option, none, some, List, [], ◌∷◌, ◌++◌, Text, lit, ends_with, contains, ◌==◌, text_eq,
  if◌then◌else◌,
}
use reposync.Base.Crates.{Crates, Reader}
use reposync.Config.Data.{RepositoryConfig}
use reposync.Packages.{
  Package, IndexFile, Repository, Signature, pgp_external, unsigned, create_sha256_hash, read_text,
}
use reposync.World.{Io, pure, lift, unwrap, with_context, ◌>>=◌}
use reposync.State.{
  MetadataStore, SavedRepoMetadataStore, LiveRepoMetadataStore, saved_store, live_store, live_new,
}
use reposync.Fetcher.{Fetcher}
use reposync.Utils.{add_optional_index, expect}
use reposync.Redhat.Xml.{RepomodData, parse_packages, parse_repomod}

abbrev pub repo_mod_path : Text
repo_mod_path = lit "repodata/repomd.xml"

-- The fold at the end: each architecture once, in the order of its first package.
unfoldable pub architectures_of : List Text → List Package → List Text
architectures_of acc [] = acc
architectures_of acc (x ∷ xs) =
    architectures_of (if contains acc x.architecture then acc else acc ++ x.architecture ∷ []) xs

module _ ⦃lib : Crates⦄ (state : MetadataStore) where
  -- The signature of repomd.xml, from its reader.
  repomod_signature : Option Reader → Io Signature
  unfolding read_text
  repomod_signature none = pure unsigned
  repomod_signature (some reader) = do text ← lift (read_text reader); pure (pgp_external text)

  -- The packages of one entry of repomd.xml: the primary one has them, perhaps compressed.
  entry_packages : RepomodData → Reader → Io (List Package)
  unfolding parse_packages
  entry_packages entry reader =
      if entry.type_ == lit "primary"
      then with_context (lit "cannot parse primary.xml: ") (
          lift (
            parse_packages
              (if ends_with entry.location (lit ".gz") then lib.gunzip reader else reader)))
      else pure []

  -- The loop over the entries. A file that cannot be fetched is a panic.
  entry_loop : List RepomodData → Io (List IndexFile × List Package)
  unfolding entry_packages
  entry_loop [] = pure ([], [])
  entry_loop (entry ∷ rest) = do
    (disk_path, reader, size) ← unwrap (state.fetch entry.location)
    packages ← entry_packages entry reader
    let index : IndexFile = record {
      file_path = disk_path;
      path = entry.location;
      size = size;
      hash = entry.hash;
      signature = unsigned;
    }
    (indexes, more) ← entry_loop rest
    pure (index ∷ indexes, packages ++ more)

  -- `fetch_repository_internal`
  unfoldable pub fetch_repository_internal : RepositoryConfig → Io Repository
  unfolding repomod_signature entry_loop parse_repomod add_optional_index expect create_sha256_hash
  fetch_repository_internal config = do
    (disk_path, reader, size) ←
        with_context (lit "cannot fetch repomod.xml: ") (state.fetch repo_mod_path)
    entries ← with_context (lit "cannot parse repomod.xml: ") (lift (parse_repomod reader))
    (found, optional) ← add_optional_index state (repo_mod_path ++ lit ".asc") [] unsigned
    again ← state.read repo_mod_path
    stored ← expect again
    signature ← repomod_signature found
    hash ← lift (create_sha256_hash stored)
    let first : IndexFile = record {
      file_path = disk_path;
      path = repo_mod_path;
      size = size;
      hash = hash;
      signature = signature;
    }
    (indexes, packages) ← entry_loop entries
    pure (record {
      name = config.name;
      collections =
          (record {
            target = record { release_name = []; architectures = architectures_of [] packages };
            indexes = optional ++ (first ∷ indexes);
            packages = packages;
          })
          ∷ [];
    })

module _ ⦃lib : Crates⦄ where
  unfoldable pub fetch_repository :
      Fetcher → Text → RepositoryConfig → Io (Repository × LiveRepoMetadataStore)
  unfolding fetch_repository_internal live_new live_store
  fetch_repository fetcher tmp_path config = do
    repo_metadata ← live_new config.source.endpoint tmp_path fetcher
    repo ←
        with_context (lit "cannot fetch repo state: ")
          (fetch_repository_internal (live_store repo_metadata) config)
    pure (repo, repo_metadata)

  unfoldable pub load_repository :
      Text → RepositoryConfig → Io (Repository × SavedRepoMetadataStore)
  unfolding fetch_repository_internal saved_store
  load_repository data_path config =
      let repo_metadata : SavedRepoMetadataStore = record { directory = data_path } in
      do
        repo ←
            with_context (lit "cannot load current repo state: ")
              (fetch_repository_internal (saved_store repo_metadata) config)
        pure (repo, repo_metadata)
