-- ===== src/Sync/Mirror/Untouched.antt =====
-- The parts of `sync_repo_internal` of src/sync.rs before its copies leave the bucket alone.
use reposync.Base.{Option, Text}
use reposync.Base.Crates.{Crates}
use reposync.Config.Data.{GeneralConfig, RepositoryConfig}
use reposync.Packages.{Repository}
use reposync.World.Preorder.{Keeps}
use reposync.World.Files.Frame.{SameFiles}
use reposync.World.Files.Bucket.{SameBucket, bucket-preorder, SameFiles-bucket}
use reposync.State.Kept.{live_fetch-bucket, live_read-bucket, live_new-bucket}
use reposync.Fetcher.{Fetcher}
use reposync.Sync.Manager.{load_current, fetch_repository, tmp_path, validate}
use reposync.Sync.Manager.Kept.{
  made, fetch_repository-Keeps, load_current-SameFiles, validate-SameFiles,
}

module _ ⦃lib : Crates⦄ where
  pub load_current-bucket :
      (general : GeneralConfig) (repo : RepositoryConfig)
      → Keeps SameBucket (load_current general repo)
  load_current-bucket general repo = SameFiles-bucket (load_current-SameFiles general repo)

  pub fetch_repository-bucket :
      (general : GeneralConfig) (fetcher : Fetcher) (repo : RepositoryConfig)
      → ((url : Text) → Keeps SameFiles (fetcher url))
      → Keeps SameBucket (fetch_repository general fetcher repo)
  fetch_repository-bucket general fetcher repo quiet =
      let store = made repo.source.endpoint (tmp_path general repo) fetcher in
      fetch_repository-Keeps bucket-preorder general fetcher repo (live_new-bucket _ _ fetcher)
        (λ path. live_fetch-bucket store path quiet) (live_read-bucket store)

  pub validate-bucket :
      (key : Option Text) (repo : Repository) → Keeps SameBucket (validate key repo)
  validate-bucket key repo = SameFiles-bucket (validate-SameFiles key repo)
