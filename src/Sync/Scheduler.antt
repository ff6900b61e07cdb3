-- ===== src/Sync/Scheduler.antt =====
-- The schedule of `SyncManager` in src/sync.rs. Times are nanoseconds since the epoch.
pub mod Next
pub mod Queue
use Prim.Native.Nat.{min}
use reposync.Base.{
  ℕ, zero, suc, ◌+◌, ◌-◌, ◌*◌, Bool, true, false, Option, none, some, List, [], ◌∷◌, Text, lit, ltb,
  leb, if◌then◌else◌,
}
use reposync.Base.Outcome.{Outcome, Result, ok, err, panic, IoError}
use reposync.Base.Dict.{Dict, get, insert}
use reposync.Config.Data.{GeneralConfig, RepositoryConfig, Config}
use reposync.Locks.{SyncLocks, is_repo_syncing}
use reposync.World.{World}

pub data RepoStatus : Type 0 where
  syncing waiting : RepoStatus

pub record SyncStatus : Type 0 where
  pub current : RepoStatus
  pub next_sync : ℕ
  pub last_sync : ℕ
  pub last_result : Option Text

-- The map under the guard of `sync_map`.
abbrev pub SyncMap : Type 0
SyncMap = Dict SyncStatus

-- `sync_map`: a `Mutex` is poisoned for good once a thread panics while it holds the guard, and then
-- every `lock().unwrap()` panics.
pub record SharedMap : Type 0 where
  pub is_poisoned : Bool
  pub statuses : SyncMap

-- `Duration::from_secs(minutes as u64 * 60)`
abbrev pub minutes : ℕ → ℕ
minutes n = n * 60 * 1000000000

-- The loop of `new_internal`; the clock is asked once for each repository.
unfoldable pub new_map : GeneralConfig → (ℕ → ℕ) → ℕ → List RepositoryConfig → SyncMap → SyncMap
unfolding insert
new_map general clock n [] m = m
new_map general clock n (r ∷ rs) m = new_map general clock (suc n) rs (
    insert r.name
      (record {
        current = waiting;
        next_sync = clock n + minutes general.max_sync_delay;
        last_sync = 0;
        last_result = none;
      })
      m)

-- `queue_sync`; a clock that stands before the last synchronisation is a panic of `duration_since`.
unfoldable pub queue_sync : GeneralConfig → ℕ → Text → SyncMap → Result SyncMap
unfolding insert
queue_sync general now repo_name m = elim (get m repo_name) [
  | none ↦ ok m
  | some status ↦
      if leb status.last_sync now
      then ok (
          insert repo_name
            (record status {
              next_sync =
                  min (now + minutes general.min_sync_delay - (now - status.last_sync))
                    status.next_sync;
            })
            m)
      else panic
]

queued : SharedMap → Result SyncMap → Result (Unit {0}) × SharedMap
queued m (ok statuses) = (ok tt, record m { statuses = statuses })
queued m (err e) = (err e, m)
queued m panic = (panic, record m { is_poisoned = true })

-- `queue_sync` on the shared map: a panic under its guard poisons it.
unfoldable pub queue_shared : GeneralConfig → ℕ → Text → SharedMap → Result (Unit {0}) × SharedMap
unfolding queue_sync queued
queue_shared general now repo_name m =
    if m.is_poisoned then (panic, m) else queued m (queue_sync general now repo_name m.statuses)

-- `sync_completed`
unfoldable pub sync_completed : GeneralConfig → ℕ → Text → Text → SyncMap → SyncMap
unfolding insert
sync_completed general now repo_name result m = elim (get m repo_name) [
  | none ↦ m
  | some status ↦
      insert repo_name
        (record status {
          last_sync = now;
          next_sync = now + minutes general.max_sync_delay;
          last_result = some result;
        })
        m
]

-- The loop of `next_repo_to_sync`, with the closest so far.
next_loop : Option (Text × ℕ) → SyncMap → Option (Text × ℕ)
next_loop closer [] = closer
next_loop none ((key, value) ∷ m) = next_loop (some (key, value.next_sync)) m
next_loop (some (name, next_sync)) ((key, value) ∷ m) =
    next_loop
      (some (if ltb value.next_sync next_sync then (key, value.next_sync) else (name, next_sync))) m

-- `next_repo_to_sync`
unfoldable pub next_repo_to_sync : SyncMap → Option (Text × ℕ)
unfolding next_loop
next_repo_to_sync m = next_loop none m

-- `get_status`; a poisoned map is a panic.
unfoldable pub get_status : SyncLocks → SharedMap → Text → Result (Option SyncStatus)
unfolding is_repo_syncing
get_status locks m repo_name =
    if m.is_poisoned
    then panic
    else ok (elim (get m.statuses repo_name) [
      | none ↦ none
      | some status ↦
          some (record status {
            current = if is_repo_syncing locks repo_name then syncing else waiting;
          })
    ])

-- What one turn of the scheduler's loop does: it sleeps, or it has synchronised a repository, or
-- the thread has ended with a panic.
pub data Turn : Type 0 where
  sleep : ℕ → Turn
  synced : Text → World → SyncLocks → SharedMap → Turn
  dead : Turn

abbrev pub ten_seconds : ℕ
ten_seconds = 10 * 1000000000

-- `sync_completed` on the shared map, which the thread locks again.
completed : GeneralConfig → ℕ → Text → Text → World → SyncLocks → SharedMap → Turn
unfolding sync_completed
completed general later name result w locks m =
    if m.is_poisoned
    then dead
    else synced name w locks
        (record m { statuses = sync_completed general later name result m.statuses })

-- The result of a synchronisation, noted at a later time.
noted : GeneralConfig → ℕ → Text → SharedMap → Outcome IoError (Unit {0}) × World × SyncLocks → Turn
unfolding completed
noted general later name m (ok _, w, locks) =
    completed general later name (lit "successful") w locks m
noted general later name m (err e, w, locks) = completed general later name e.message w locks m
noted general later name m (panic, w, locks) = dead

-- The loop of `start_scheduler`, over `sync_repo`. The map is locked to choose the repository, and
-- again when the synchronisation has ended: by then requests may have changed or poisoned it.
unfoldable pub scheduler_turn :
    GeneralConfig
    → (Text → Outcome IoError (Unit {0}) × World × SyncLocks)
    → (now later : ℕ) (m m₁ : SharedMap) → Turn
unfolding next_repo_to_sync noted
scheduler_turn general sync now later m m₁ =
    if m.is_poisoned then dead else elim (next_repo_to_sync m.statuses) [
      | none ↦ sleep ten_seconds
      | some (name, time) ↦
          if leb now time
          then sleep (min (time - now) ten_seconds)
          else noted general later name m₁ (sync name)
    ]
