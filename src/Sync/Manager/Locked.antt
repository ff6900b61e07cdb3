-- ===== src/Sync/Manager/Locked.antt =====
-- The lock that `sync_repo` of src/sync.rs holds while it synchronises.
use reposync.Base.{◌≡◌, ◌≢◌, refl, Bool, true, false, Option, some, Text, arith, text_eq}
use reposync.Base.Outcome.{Outcome, ok, err, panic, IoError}
use reposync.Base.Crates.{Crates}
use reposync.Base.Dict.{get}
use reposync.Config.Data.{Config, GeneralConfig, RepositoryConfig}
use reposync.World.{World}
use reposync.Locks.{SyncLocks, lock_sync}
use reposync.Fetcher.{Fetcher}
use reposync.Destination.{Destination}
use reposync.Sync.Manager.{get_repo_config, sync_locked, prepare, prepared, sync_repo}

abbrev flag : Option Bool → Bool
flag (some true) = true
flag _ = false

-- The lock of a repository is taken.
abbrev pub is_held : SyncLocks → Text → Bool
is_held locks name = flag (get locks name)

module _ ⦃lib : Crates⦄ where
  locked-refused :
      (locks : SyncLocks) (general : GeneralConfig) (repo : RepositoryConfig)
      (r : Outcome IoError (Fetcher × Destination)) (w : World)
      → is_held locks repo.name ≡ true
      → ((prepared locks general repo r w).0 ≢ ok tt) × ((prepared locks general repo r w).1 ≡ w)
  unfolding prepared sync_locked lock_sync
  locked-refused locks general repo (ok (fetcher, destination)) w h =
      (λ e. ground arith, ground arith)
  locked-refused locks general repo (err e) w h = (λ k. ground arith, refl)
  locked-refused locks general repo panic w h = (λ k. ground arith, refl)

  -- A synchronisation of a repository whose lock is taken fails, and does nothing behind the
  -- preparation of its fetcher and destination.
  pub sync_repo-refused :
      (locks : SyncLocks) (config : Config) (name : Text) (repo : RepositoryConfig) (w : World)
      → get_repo_config config name ≡ some repo
      → is_held locks repo.name ≡ true
      → ((sync_repo locks config name w).0 ≢ ok tt)
        × ((sync_repo locks config name w).1 ≡ (prepare config.general repo w).1)
  unfolding sync_repo
  sync_repo-refused locks config name repo w e h =
      rw (sync_repo, e)
        (locked-refused locks config.general repo (prepare config.general repo w).0
          (prepare config.general repo w).1 h)
