-- ===== src/Sync/Scheduler/Next.antt =====
-- `next_repo_to_sync` of src/sync.rs.
use reposync.Base.{
  ℕ, ◌≤◌, ◌<◌, ◌≡◌, refl, none, some, [], ◌∷◌, ◌++◌, Text, arith, All, ◌⊎◌, inl, inr, ap,
  Bool-cases, ltb,
}
use reposync.Sync.Scheduler.{SyncStatus, SyncMap, next_loop, next_repo_to_sync}

-- The entry is in the map, behind entries that are all later than it and before none that is
-- earlier: the first of the earliest.
pub data IsFirst (name : Text) (time : ℕ) : SyncMap → Type 0 where
  found :
      (before after : SyncMap) (status : SyncStatus) (m : SyncMap)
      → m ≡ before ++ (name, status) ∷ after
      → status.next_sync ≡ time
      → All (λ e. time < e.1.next_sync) before
      → All (λ e. time ≤ e.1.next_sync) after
      → IsFirst name time m

IsFirst-cons :
    (e : Text × SyncStatus) {name : Text} {time : ℕ} {m : SyncMap}
    → time < e.1.next_sync
    → IsFirst name time m
    → IsFirst name time (e ∷ m)
IsFirst-cons e h (found before after status m p q b a) =
    found (e ∷ before) after status (e ∷ m) (ap (◌∷◌ e) p) q (h, b) a

-- The loop keeps its candidate, or finds an earlier one in the entries that are left.
abbrev Kept : Text → ℕ → SyncMap → Type 0
Kept name time m =
    All (λ e. time ≤ e.1.next_sync) m × (next_loop (some (name, time)) m ≡ some (name, time))

abbrev Improved : Text → ℕ → SyncMap → Type 0
Improved name time m =
    (n : Text) × (t : ℕ) × IsFirst n t m
    × (t < time)
    × (next_loop (some (name, time)) m ≡ some (n, t))

earlier :
    (name : Text) (time : ℕ) (k : Text) (v : SyncStatus) (m : SyncMap)
    → v.next_sync < time
    → Kept k v.next_sync m ⊎ Improved k v.next_sync m
    → Improved name time ((k, v) ∷ m)
unfolding next_loop
earlier name time k v m h (inl (a, e)) =
    (k, v.next_sync, found [] m v ((k, v) ∷ m) refl refl tt a, h, ground arith)
earlier name time k v m h (inr (n, t, f, lt, e)) =
    (n, t, IsFirst-cons (k, v) lt f, omega arith, ground arith)

later :
    (name : Text) (time : ℕ) (k : Text) (v : SyncStatus) (m : SyncMap)
    → time ≤ v.next_sync
    → Kept name time m ⊎ Improved name time m
    → Kept name time ((k, v) ∷ m) ⊎ Improved name time ((k, v) ∷ m)
unfolding next_loop
later name time k v m h (inl (a, e)) = inl ((h, a), ground arith)
later name time k v m h (inr (n, t, f, lt, e)) =
    inr (n, t, IsFirst-cons (k, v) (omega arith) f, lt, ground arith)

next_loop_cases : (name : Text) (time : ℕ) (m : SyncMap) → Kept name time m ⊎ Improved name time m
unfolding next_loop
next_loop_cases name time [] = inl (tt, refl)
next_loop_cases name time ((k, v) ∷ m) = elim (Bool-cases (ltb v.next_sync time)) [
  | inl lt ↦ inr (earlier name time k v m (ground arith) (next_loop_cases k v.next_sync m))
  | inr ge ↦ later name time k v m (ground arith) (next_loop_cases name time m)
]

-- The next repository is the first, in the order of the names, of those with the earliest time;
-- there is none only if there are no repositories.
pub next_repo_to_sync-IsFirst :
    (m : SyncMap)
    → ((m ≡ []) × (next_repo_to_sync m ≡ none))
      ⊎ ((name : Text) × (time : ℕ) × (next_repo_to_sync m ≡ some (name, time))
          × IsFirst name time m)
unfolding next_repo_to_sync
next_repo_to_sync-IsFirst [] = inl (refl, refl)
next_repo_to_sync-IsFirst ((k, v) ∷ m) = elim (next_loop_cases k v.next_sync m) [
  | inl (a, e) ↦ inr (k, v.next_sync, e, found [] m v ((k, v) ∷ m) refl refl tt a)
  | inr (n, t, f, lt, e) ↦ inr (n, t, e, IsFirst-cons (k, v) lt f)
]
