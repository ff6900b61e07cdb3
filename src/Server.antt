-- ===== src/Server.antt =====
-- The handlers of src/server.rs.
pub mod Health
pub mod Poison
use reposync.Base.{
  ℕ, ◌≡◌, ap, ◌/◌, false, Option, none, some, List, [], ◌∷◌, map, Text, lit, ◌==◌, text_eq,
  if◌then◌else◌, unwrap_or,
}
use reposync.Base.Outcome.{Outcome, Result, ok, err, panic, IoError}
use reposync.Base.Crates.{Crates}
use reposync.Base.Parse.Signed.{ℤ, as_i64}
use reposync.Config.Data.{Config}
use reposync.Locks.{SyncLocks}
use reposync.Packages.{Repository, size, count_packages}
use reposync.Sync.Manager.{load_current_by_name, sync_repo}
use reposync.Sync.Manager.Permissions.{check_permissions}
use reposync.Sync.Scheduler.{
  RepoStatus, syncing, waiting, SyncStatus, SyncMap, SharedMap, get_status, queue_sync,
  queue_shared,
}
use reposync.Sync.Scheduler.Queue.{queue_shared-ok}
use reposync.World.{World}

-- The model `Status` of the API.
pub record Status : Type 0 where
  pub name : Text
  pub status : Text
  pub next_sync : ℤ
  pub last_sync : ℤ
  pub last_result : Text
  pub size : ℤ
  pub packages : ℤ

-- `impl Display for RepoStatus`
unfoldable pub display : RepoStatus → Text
unfolding lit
display syncing = lit "syncing"
display waiting = lit "waiting"

-- `normalize`: milliseconds since the epoch.
unfoldable pub normalize : ℕ → ℤ
unfolding as_i64
normalize time = as_i64 (time / 1000000)

status_of : Repository → SyncStatus → Status
unfolding display normalize size count_packages as_i64
status_of repo s = record {
  name = repo.name;
  status = display s.current;
  next_sync = normalize s.next_sync;
  last_sync = normalize s.last_sync;
  last_result = unwrap_or s.last_result [];
  size = as_i64 (size repo);
  packages = as_i64 (count_packages repo);
}

found_status : Repository → Result (Option SyncStatus) → Result (Option Status)
unfolding status_of
found_status repo (ok none) = ok none
found_status repo (ok (some s)) = ok (some (status_of repo s))
found_status repo (err e) = err e
found_status repo panic = panic

-- `if let Ok(Some(result)) = result`: the state of the repository that was loaded, with its place in
-- the schedule; an error reads as a repository that is not there.
status_outcome :
    SyncLocks → SharedMap → Outcome IoError (Option Repository) → Result (Option Status)
unfolding found_status get_status
status_outcome locks m (ok none) = ok none
status_outcome locks m (ok (some repo)) = found_status repo (get_status locks m repo.name)
status_outcome locks m (err e) = ok none
status_outcome locks m panic = panic

pub data HealthGetResponse : Type 0 where
  empty_response_when_everything_is_ok : HealthGetResponse
  service_unavailable_when_service_has_known_issues : HealthGetResponse

health_response : Outcome IoError (Unit {0}) → Result HealthGetResponse
health_response (ok x) = ok empty_response_when_everything_is_ok
health_response (err e) = ok service_unavailable_when_service_has_known_issues
health_response panic = panic

-- `health_get`
unfoldable pub health_get : Config → World → Result HealthGetResponse
unfolding health_response check_permissions
health_get config w = health_response (check_permissions config.general w).0

module _ ⦃lib : Crates⦄ where
  -- `Server::get_repo_status`, and so `repository_repo_get`: `none` is the answer 404.
  unfoldable pub get_repo_status :
      Config → SyncLocks → SharedMap → Text → World → Result (Option Status)
  unfolding status_outcome load_current_by_name
  get_repo_status config locks m repo_name w =
      status_outcome locks m (load_current_by_name config repo_name w).0

  after_queue :
      Config
      → SyncLocks
      → Text
      → World
      → Result (Unit {0}) × SharedMap
      → Result (Option Status) × SharedMap
  unfolding get_repo_status
  after_queue config locks repo_name w (ok _, m) = (get_repo_status config locks m repo_name w, m)
  after_queue config locks repo_name w (err e, m) = (err e, m)
  after_queue config locks repo_name w (panic, m) = (panic, m)

  -- `repository_repo_sync_post`: the request, and then the status.
  unfoldable pub repository_repo_sync_post :
      Config → ℕ → SyncLocks → SharedMap → Text → World → Result (Option Status) × SharedMap
  unfolding after_queue queue_shared
  repository_repo_sync_post config now locks m repo_name w =
      after_queue config locks repo_name w (queue_shared config.general now repo_name m)

  -- The schedule after a request is what `queue_sync` leaves.
  pub repository_repo_sync_post-ok :
      (config : Config) (now : ℕ) (locks : SyncLocks) (m : SharedMap) (statuses : SyncMap)
      (repo_name : Text) (w : World)
      → m.is_poisoned ≡ false
      → queue_sync config.general now repo_name m.statuses ≡ ok statuses
      → (repository_repo_sync_post config now locks m repo_name w).1
        ≡ record m { statuses = statuses }
  unfolding repository_repo_sync_post after_queue
  repository_repo_sync_post-ok config now locks m statuses repo_name w fine e =
      ap (λ r. (after_queue config locks repo_name w r).1)
        (queue_shared-ok config.general repo_name now m statuses fine e)
