-- ===== src/Tests/Schedule.antt =====
-- A schedule of one repository: a request, the choice of the next one, and a turn.
use Prim.Native.Nat.{min}
use reposync.Base.{
  ℕ, ◌+◌, ◌≡◌, ◌⊎◌, refl, none, some, [], true, false, ◌∷◌, Text, arith, ◌==◌, ℕ_eq, text_eq,
  if◌then◌else◌, text-discrete, ℕ-discrete, ◌*◌,
}
use reposync.Base.Outcome.{Outcome, ok, IoError}
use reposync.Base.Dict.{get}
use reposync.World.{World}
use reposync.Locks.{SyncLocks}
use reposync.Sync.Scheduler.{
  SyncMap, SharedMap, dead, SyncStatus, waiting, minutes, queue_sync, next_repo_to_sync,
  scheduler_turn,
}
use reposync.Sync.Scheduler.Next.{IsFirst, next_repo_to_sync-IsFirst}
use reposync.Sync.Scheduler.Queue.{queue_sync_lem, IsTurn, scheduler_turn-IsTurn}
use reposync.Tests.Data.{sample_crates, world, general, repo_name}

-- A schedule of one repository, and a request of it.
abbrev pub status : SyncStatus
status = record {
  current = waiting;
  next_sync = 9 * 60 * 1000000000;
  last_sync = 0;
  last_result = none;
}

abbrev pub schedule : SyncMap
schedule = (repo_name, status) ∷ []

pub scheduled : get schedule repo_name ≡ some status
unfolding ℕ-discrete text-discrete
scheduled = refl

next_repo_to_sync-IsFirst_example :
    ((schedule ≡ []) × (next_repo_to_sync schedule ≡ none))
    ⊎ ((name : Text) × (time : ℕ) × (next_repo_to_sync schedule ≡ some (name, time))
        × IsFirst name time schedule)
next_repo_to_sync-IsFirst_example = next_repo_to_sync-IsFirst schedule

queue_sync_lem_example :
    (m' : SyncMap) × (queue_sync general 5 repo_name schedule ≡ ok m')
    × ((j : Text)
        → get m' j ≡ (
            if repo_name == j
            then some (record status {
              next_sync = min (status.last_sync + minutes general.min_sync_delay) status.next_sync;
            })
            else get schedule j))
queue_sync_lem_example = queue_sync_lem general repo_name 5 schedule status scheduled (omega arith)

abbrev synchronise : Text → Outcome IoError (Unit {0}) × World × SyncLocks
synchronise name = (ok tt, world, [])

abbrev pub shared : SharedMap
shared = record { is_poisoned = false; statuses = schedule }

scheduler_turn-IsTurn_example :
    ((false ≡ true)
      × (scheduler_turn general synchronise 600000000000 600000000001 shared shared ≡ dead))
    ⊎ ((false ≡ false)
        × IsTurn general synchronise 600000000000 600000000001 shared
            (next_repo_to_sync schedule)
            (scheduler_turn general synchronise 600000000000 600000000001 shared shared))
scheduler_turn-IsTurn_example =
    scheduler_turn-IsTurn general synchronise 600000000000 600000000001 shared shared

-- A schedule whose repository was synchronised at a time that the clock has not reached.
abbrev late : SyncStatus
late = record status { last_sync = 7 }

abbrev ahead : SharedMap
ahead = record { is_poisoned = false; statuses = (repo_name, late) ∷ [] }
