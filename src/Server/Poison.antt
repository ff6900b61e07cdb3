-- ===== src/Server/Poison.antt =====
-- A panic of `queue_sync` in src/sync.rs, and the handlers of src/server.rs after it.
use reposync.Base.{ℕ, ◌≡◌, some, Text}
use reposync.Base.Crates.{Crates}
use reposync.Base.Outcome.{Outcome, ok, panic, IoError}
use reposync.Config.Data.{Config}
use reposync.Locks.{SyncLocks}
use reposync.Packages.{Repository}
use reposync.Server.{get_repo_status, repository_repo_sync_post}
use reposync.Sync.Manager.{load_current_by_name}
use reposync.Sync.Scheduler.{SharedMap, scheduler_turn, dead}
use reposync.World.{World}

module _ ⦃lib : Crates⦄ where
  -- What a poisoned schedule leaves of the service: the scheduler's thread ends, every request for a
  -- synchronisation panics, and so does every request for the status of a repository that is there.
  pub record IsDead (config : Config) (m : SharedMap) : Type 0 where
    pub scheduler :
        (sync : Text → Outcome IoError (Unit {0}) × World × SyncLocks) (now later : ℕ)
        (m₁ : SharedMap)
        → scheduler_turn config.general sync now later m m₁ ≡ dead
    pub requests :
        (now : ℕ) (locks : SyncLocks) (name : Text) (w : World)
        → repository_repo_sync_post config now locks m name w ≡ (panic, m)
    pub status :
        (locks : SyncLocks) (name : Text) (w : World) (repo : Repository)
        → (load_current_by_name config name w).0 ≡ ok (some repo)
        → get_repo_status config locks m name w ≡ panic
