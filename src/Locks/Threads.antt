-- ===== src/Locks/Threads.antt =====
-- Threads that take and drop the sync locks of src/locks.rs, in any interleaving. Each call of
-- `lock_sync` and each drop is one step, since they hold the mutex of the map or are one store.
use reposync.Base.{
  ℕ, ◌+◌, ◌≤◌, ◌≡◌, refl, Bool, true, false, Option, some, List, [], ◌∷◌, ◌++◌, Text, arith, ◌==◌,
  text_eq, if◌then◌else◌, ==_self, ◌↔◌, not, ◌||◌, is_some, ℕ_eq,
}
use reposync.Base.Dict.{get, get-insert}
use reposync.Locks.{SyncLocks, lock_sync, drop, is_repo_syncing}

-- The locks, and the holders that are alive: a thread and the name of its repository.
pub record Threads : Type 0 where
  pub locks : SyncLocks
  pub holders : List (ℕ × Text)

pub data Step : Threads → Threads → Type 0 where
  acquire :
      (s : Threads) (thread : ℕ) (name : Text)
      → (lock_sync s.locks name).0 ≡ true
      → Step s (record { locks = (lock_sync s.locks name).1; holders = (thread, name) ∷ s.holders })
  refuse :
      (s : Threads) (thread : ℕ) (name : Text)
      → (lock_sync s.locks name).0 ≡ false
      → Step s (record s { locks = (lock_sync s.locks name).1 })
  release :
      (locks : SyncLocks) (before after : List (ℕ × Text)) (thread : ℕ) (name : Text)
      → Step
          (record { locks = locks; holders = before ++ (thread, name) ∷ after })
          (record { locks = drop locks name; holders = before ++ after })

abbrev pub initial : Threads
initial = record { locks = []; holders = [] }

pub data Reach : Threads → Type 0 where
  here : Reach initial
  next : {s t : Threads} → Reach s → Step s t → Reach t

-- How many threads hold the lock of a repository.
abbrev pub held : Text → List (ℕ × Text) → ℕ
held name [] = 0
held name ((_, j) ∷ hs) = (if j == name then 1 else 0) + held name hs

pub held-append :
    (name : Text) (xs ys : List (ℕ × Text)) → held name (xs ++ ys) ≡ held name xs + held name ys
held-append name [] ys = omega arith
held-append name ((t, j) ∷ xs) ys = omega (arith, held-append name xs ys)

abbrev flag : Option Bool → ℕ
flag (some true) = 1
flag _ = 0

-- The flag of a repository tells whether it is held.
IsTrue : Threads → Type 0
IsTrue s = (name : Text) → held name s.holders ≡ flag (get s.locks name)

Step-IsTrue : {s t : Threads} → Step s t → IsTrue s → IsTrue t
unfolding IsTrue lock_sync drop
Step-IsTrue (acquire s thread j won) h name =
    ground (arith, h name, h j, get-insert j name true s.locks)
Step-IsTrue (refuse s thread j lost) h name =
    ground (arith, h name, h j, get-insert j name true s.locks)
Step-IsTrue (release locks before after thread j) h name = ground (
  arith,
  h name,
  h j,
  ==_self j,
  get-insert j name false locks,
  held-append name before ((thread, j) ∷ after),
  held-append name before after,
)

Reach-IsTrue : {s : Threads} → Reach s → IsTrue s
unfolding IsTrue
Reach-IsTrue here name = refl
Reach-IsTrue (next r st) name = Step-IsTrue st (Reach-IsTrue r) name

-- Mutual exclusion: in every interleaving at most one thread synchronises a repository.
pub held-le-one : {s : Threads} (name : Text) → Reach s → held name s.holders ≤ 1
unfolding IsTrue
held-le-one {s} name r = ground (arith, Reach-IsTrue r name)

-- A thread gets the lock exactly if no thread holds it.
pub lock_sync-free :
    {s : Threads} (name : Text)
    → Reach s
    → ((lock_sync s.locks name).0 ≡ true) ↔ (held name s.holders ≡ 0)
unfolding IsTrue lock_sync
lock_sync-free {s} name r = ground (arith, Reach-IsTrue r name)

-- A repository that was never synchronised is reported as syncing, though no thread holds it; any
-- other is reported as syncing exactly while a thread holds it.
pub is_repo_syncing-held :
    {s : Threads} (name : Text)
    → Reach s
    → is_repo_syncing s.locks name ≡ (not (is_some (get s.locks name)) || held name s.holders == 1)
unfolding IsTrue is_repo_syncing
is_repo_syncing-held {s} name r = ground (arith, Reach-IsTrue r name)
