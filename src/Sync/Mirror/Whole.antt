-- ===== src/Sync/Mirror/Whole.antt =====
-- `sync_repo_internal` of src/sync.rs from the download of the indexes to the replacement.
use reposync.Base.{ℕ, ◌≡◌, Option, [], ◌∷◌, Text, text_eq}
use reposync.Base.Outcome.{ok}
use reposync.Base.Crates.{Crates}
use reposync.Config.Data.{GeneralConfig, RepositoryConfig}
use reposync.Config.Load.{parse_public_key}
use reposync.Packages.{Repository}
use reposync.World.{World}
use reposync.World.Bind.{Returns}
use reposync.State.{LiveRepoMetadataStore, SavedRepoMetadataStore, replace}
use reposync.Fetcher.{create_chain}
use reposync.Fetcher.Quiet.{create_chain-SameFiles}
use reposync.Destination.S3.{S3Destination, s3_destination, s3_path}
use reposync.Destination.S3.Lawful.{s3-IsLawful, object-bucket}
use reposync.Sync.Diff.{Plan, repo_diff}
use reposync.Sync.Files.{repository_files}
use reposync.Sync.Manager.{data_path, load_current, fetch_repository, validate, sync_repo_internal}
use reposync.Sync.Mirror.Bucket.{key-path, HasPaths, IsApart, IsServed}
use reposync.Sync.Mirror.Untouched.{fetch_repository-bucket}
use reposync.Sync.Mirror.Ends.{sync_repo_internal-HoldsAll}
use reposync.State.Replace.{replace-bucket}

module _ ⦃lib : Crates⦄ where
  module _ (d : S3Destination) (general : GeneralConfig) (config : RepositoryConfig)
      (max_retries : ℕ) (secret key : Option Text) (new current : Repository)
      (store : LiveRepoMetadataStore) (saved : SavedRepoMetadataStore) (plan : Plan)
      (w w₁ w₂ w₃ w' : World) where
    -- A synchronisation to a bucket that ends well, with the indexes downloaded, their signatures
    -- validated, the current state loaded and the two compared on its way, has mirrored the new
    -- repository: the bucket has each of its files with its hash and size. It must have had those of
    -- the current state before, files of one path must agree, and no deletion may have the path of a
    -- new file.
    pub sync_repo_internal-IsServed :
        Returns
          (fetch_repository general (create_chain max_retries secret) config)
          w
          (new, store)
          w₁
        → parse_public_key config.source ≡ ok key
        → Returns (validate key new) w₁ tt w₂
        → Returns (load_current general config) w₂ (current, saved) w₃
        → repo_diff new current ≡ ok plan
        → HasPaths (repository_files new)
        → IsApart (repository_files new) plan
        → IsServed d w (repository_files current)
        → Returns
            (sync_repo_internal general (create_chain max_retries secret) (s3_destination d) config)
            w
            tt
            w'
        → IsServed d w' (repository_files new)
    unfolding s3-IsLawful
    sync_repo_internal-IsServed fetched parsed valid loaded diff paths apart before h =
        let chain = create_chain max_retries secret in
        let quiet = create_chain-SameFiles max_retries secret in
        sync_repo_internal-HoldsAll (s3_destination d) (s3-IsLawful d) general config chain new
          current plan w w'
          (record {
            key = key;
            store = store;
            saved = saved;
            w₁ = w₁;
            w₂ = w₂;
            w₃ = w₃;
            fetched = fetched;
            parsed = parsed;
            valid = valid;
            loaded = loaded;
            compared = diff;
          })
          quiet
          (λ p. record {
            at = λ u.
                object-bucket u (fetch_repository general chain config u).1 (s3_path d p ∷ [])
                  ((fetch_repository-bucket general chain config quiet).at u);
          })
          (λ p. record {
            at = λ u.
                object-bucket u (replace store (data_path general config) u).1 (s3_path d p ∷ [])
                  ((replace-bucket store (data_path general config)).at u);
          })
          (λ f g m n e. paths f g m n (key-path d f.path g.path e))
          (λ f m.
            let (a, b) = apart f m in
            (
              λ o n e. a o n (key-path d o.path f.path e),
              λ o n e. b o n (key-path d o.path f.path e),
            ))
          before h
