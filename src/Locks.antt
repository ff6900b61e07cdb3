-- ===== src/Locks.antt =====
-- The sync locks of src/locks.rs, one for each repository.
pub mod Threads
use reposync.Base.{Bool, true, false, Option, none, some, List, [], Text, if◌then◌else◌}
use reposync.Base.Dict.{Dict, get, insert}

-- `sync_locks`: the flag of a name is shared by the map and the holders, and no entry is removed.
abbrev pub SyncLocks : Type 0
SyncLocks = Dict Bool

-- `Lock::try_lock`, and so `lock_sync`: whether there is a holder now, and the locks.
unfoldable pub lock_sync : SyncLocks → Text → Bool × SyncLocks
lock_sync locks repo_name = elim (get locks repo_name) [
  | some true ↦ (false, locks)
  | some false ↦ (true, insert repo_name true locks)
  | none ↦ (true, insert repo_name true locks)
]

-- `LockHolder::drop`
unfoldable pub drop : SyncLocks → Text → SyncLocks
drop locks repo_name = insert repo_name false locks

-- `Lock::is_repo_syncing`
unfoldable pub is_repo_syncing : SyncLocks → Text → Bool
is_repo_syncing locks repo_name = elim (get locks repo_name) [ some held ↦ held | none ↦ true ]
