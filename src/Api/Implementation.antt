-- ===== src/Api/Implementation.antt =====
-- `impl Api for Server` of src/server.rs, and a request of a client for a synchronisation.
use Prim.Native.Nat.{min}
use reposync.Base.{
  ℕ, ◌≤◌, ◌≡◌, ◌∙◌, ap, true, false, Option, none, some, Text, ◌==◌, text_eq, if◌then◌else◌, ◌+◌,
}
use reposync.Base.Crates.{Crates}
use reposync.Base.Dict.{get}
use reposync.Base.Outcome.{Result, ok, err, panic}
use reposync.Base.Parse.{is_utf8}
use reposync.Config.Data.{Config}
use reposync.Locks.{SyncLocks}
use reposync.Server.{
  Status, health_get, get_repo_status, repository_repo_sync_post, repository_repo_sync_post-ok,
}
use reposync.Sync.Scheduler.{SyncStatus, SharedMap, minutes}
use reposync.Sync.Scheduler.Queue.{queue_sync_lem}
use reposync.World.{World}
use reposync.Api.{
  Answer, Api, Http, RepositoryRepoGetResponse, the_status_of_the_repository, repository_not_found,
  RepositoryRepoSyncPostResponse, the_synchronization_has_been_queued_correctly,
  no_repository_to_sync,
}
use reposync.Api.Service.{call}
use reposync.Api.Client.{client}
use reposync.Api.Laws.{IsPlain, IsHttp, IsRoot}
use reposync.Api.Transparent.{seen-state, client-call}

-- A result as the answer of an operation.
answer : {A B : Type 0} → (A → B) → Result A → Answer B
answer f (ok a) = ok (f a)
answer f (err e) = err e.message
answer f panic = panic

get_answer : Option Status → RepositoryRepoGetResponse
get_answer (some status) = the_status_of_the_repository status
get_answer none = repository_not_found

sync_answer : Option Status → RepositoryRepoSyncPostResponse
sync_answer (some status) = the_synchronization_has_been_queued_correctly status
sync_answer none = no_repository_to_sync

module _ ⦃lib : Crates⦄ (config : Config) (now : ℕ) (locks : SyncLocks) (w : World) where
  -- The handlers at one moment: the clock, the locks and the files are what they are, and the
  -- schedule is the state.
  unfoldable pub server_api : Api SharedMap
  unfolding answer get_answer sync_answer
  server_api = record {
    health_get = λ m. (answer (λ a. a) (health_get config w), m);
    repository_repo_get = λ repo m. (answer get_answer (get_repo_status config locks m repo w), m);
    repository_repo_sync_post = λ repo m.
        let (r, m') = repository_repo_sync_post config now locks m repo w in
        (answer sync_answer r, m');
  }

  module _ (http : Http) (laws : IsHttp http) (base_path span repo : Text)
      (root : IsRoot http base_path) (header : http.is_header span ≡ true) (plain : IsPlain repo)
      (valid : is_utf8 repo ≡ true) where
    -- A request that a client sends for a repository of the schedule, whatever it is answered, moves
    -- the next synchronisation of the repository to a minimal delay after its last one, if that is
    -- earlier than what is planned, and changes nothing else of the schedule, which stays unpoisoned.
    -- The schedule must not be poisoned, and the clock must not stand before the last
    -- synchronisation.
    pub client-queue_sync :
        (m : SharedMap) (s : SyncStatus)
        → m.is_poisoned ≡ false
        → get m.statuses repo ≡ some s
        → s.last_sync ≤ now
        → (m' : SharedMap) × (((client http
                (call http server_api)
                base_path
                span).repository_repo_sync_post
              repo m).1
            ≡ m')
          × (m'.is_poisoned ≡ false)
          × ((j : Text)
              → get m'.statuses j ≡ (
                  if repo == j
                  then some (record s {
                    next_sync =
                        min (s.last_sync + minutes config.general.min_sync_delay) s.next_sync;
                  })
                  else get m.statuses j))
    unfolding server_api
    client-queue_sync m s fine known before =
        let (statuses, queued, laws') =
          queue_sync_lem config.general repo now m.statuses s known before in
        let remote =
          client-call http laws server_api span base_path repo root header m plain valid in
        let state : ((client http (call http server_api) base_path span).repository_repo_sync_post
              repo m).1
            ≡ record m { statuses = statuses } =
          ap (λ (z : Answer RepositoryRepoSyncPostResponse × SharedMap). z.1) remote.2
          ∙ seen-state (server_api.repository_repo_sync_post repo m)
          ∙ repository_repo_sync_post-ok config now locks m statuses repo w fine queued in
        (record m { statuses = statuses }, state, fine, laws')
