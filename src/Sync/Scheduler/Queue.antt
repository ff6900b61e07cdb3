-- ===== src/Sync/Scheduler/Queue.antt =====
-- `queue_sync`, `sync_completed` and the turns of the scheduler of src/sync.rs.
use Prim.Native.Nat.{min}
use mathlib.Core.Option
use reposync.Base.{
  ℕ, ◌+◌, ◌≤◌, ◌<◌, ◌≡◌, refl, Option, none, some, Text, lit, arith, ◌==◌, text_eq, ==_self,
  if◌then◌else◌, leb, ap, Bool-cases, inl, inr, ◌⊎◌, true, false,
}
use reposync.Base.Outcome.{Outcome, ok, err, panic, IoError}
use reposync.Base.Dict.{get, insert, get-insert}
use reposync.Config.Data.{GeneralConfig}
use reposync.Locks.{SyncLocks}
use reposync.World.{World}
use reposync.Sync.Scheduler.{
  SyncStatus, SyncMap, SharedMap, minutes, queue_sync, queued, queue_shared, sync_completed,
  next_repo_to_sync, Turn, sleep, synced, dead, ten_seconds, completed, noted, scheduler_turn,
}

module _ (general : GeneralConfig) (name : Text) where
  -- A request of a known repository moves its next synchronisation to the last one and the minimal
  -- delay, if that is earlier than what is planned, whatever the time; nothing else changes. The
  -- clock must not stand before the last synchronisation.
  pub queue_sync_lem :
      (now : ℕ) (m : SyncMap) (s : SyncStatus)
      → get m name ≡ some s
      → s.last_sync ≤ now
      → (m' : SyncMap) × (queue_sync general now name m ≡ ok m')
        × ((j : Text)
            → get m' j ≡ (
                if name == j
                then some (record s {
                  next_sync = min (s.last_sync + minutes general.min_sync_delay) s.next_sync;
                })
                else get m j))
  unfolding queue_sync
  queue_sync_lem now m s e h = (
    insert name
        (record s { next_sync = min (s.last_sync + minutes general.min_sync_delay) s.next_sync }) m,
    ground arith,
    λ j. get-insert name j _ m,
  )

  pub queue_shared-ok :
      (now : ℕ) (m : SharedMap) (statuses : SyncMap)
      → m.is_poisoned ≡ false
      → queue_sync general now name m.statuses ≡ ok statuses
      → queue_shared general now name m ≡ (ok tt, record m { statuses = statuses })
  unfolding queue_shared queued
  queue_shared-ok now m statuses fine e = simp (queue_shared, fine, e, queued) refl

  -- A clock that stands before the last synchronisation is a panic under the guard.
  pub queue_shared-panic :
      (now : ℕ) (m : SharedMap) (s : SyncStatus)
      → m.is_poisoned ≡ false
      → get m.statuses name ≡ some s
      → now < s.last_sync
      → queue_shared general now name m ≡ (panic, record m { is_poisoned = true })
  unfolding queue_shared queued queue_sync
  queue_shared-panic now m s fine known back =
      let early : leb s.last_sync now ≡ false = ground arith in
      simp (queue_shared, fine, queue_sync, known, early, queued) refl

  -- After a synchronisation that ended at `now`, a request at any later time plans the next one a
  -- minimal delay later, or a maximal delay later if that is shorter, and notes the result.
  pub queue_sync-sync_completed :
      (now later : ℕ) (result : Text) (m : SyncMap) (s : SyncStatus)
      → get m name ≡ some s
      → now ≤ later
      → (m' : SyncMap) × (queue_sync general later name (sync_completed general now name result m)
          ≡ ok m')
        × (get m' name
            ≡ some (record s {
              next_sync =
                  min (now + minutes general.min_sync_delay) (now + minutes general.max_sync_delay);
              last_sync = now;
              last_result = some result;
            }))
  unfolding sync_completed
  queue_sync-sync_completed now later result m s e h =
      let done : SyncStatus = record s {
        last_sync = now;
        next_sync = now + minutes general.max_sync_delay;
        last_result = some result;
      } in
      let (m', q, laws) =
        queue_sync_lem later (sync_completed general now name result m) done
          (ground (arith, get-insert name name done m, ==_self name)) h in
      (m', q, ground (arith, laws name, ==_self name))

-- What a turn of the scheduler may do with the next repository of a map that is not poisoned; `m₁` is
-- the map when the synchronisation has ended.
abbrev pub IsTurn :
    GeneralConfig
    → (Text → Outcome IoError (Unit {0}) × World × SyncLocks)
    → ℕ
    → ℕ
    → SharedMap
    → Option (Text × ℕ)
    → Turn
    → Type 0
IsTurn general sync now later m₁ none turn = turn ≡ sleep ten_seconds
IsTurn general sync now later m₁ (some (name, time)) (sleep d) =
    (now + d ≤ time) × (d ≤ ten_seconds) × (now ≤ time)
IsTurn general sync now later m₁ (some (name, time)) (synced n w locks m') =
    (n ≡ name)
    × (time < now)
    × ((sync name).1 ≡ w)
    × (m'.is_poisoned ≡ false)
    × (Option.map {B = ℕ × ℕ} (λ s. (s.next_sync, s.last_sync)) (get m'.statuses name)
        ≡ Option.map {B = ℕ × ℕ} (λ s. (later + minutes general.max_sync_delay, later))
            (get m₁.statuses name))
IsTurn general sync now later m₁ (some (name, time)) dead =
    (time < now) × (((sync name).0 ≡ panic) ⊎ (m₁.is_poisoned ≡ true))

get-sync_completed :
    (general : GeneralConfig) (later : ℕ) (name result : Text) (m : SyncMap) (s : SyncStatus)
    → get m name ≡ some s
    → get (sync_completed general later name result m) name
      ≡ some (record s {
        last_sync = later;
        next_sync = later + minutes general.max_sync_delay;
        last_result = some result;
      })
unfolding sync_completed
get-sync_completed general later name result m s e = ground (
  arith,
  ==_self name,
  get-insert name name
      (record s {
        last_sync = later;
        next_sync = later + minutes general.max_sync_delay;
        last_result = some result;
      })
      m,
)

planned :
    (general : GeneralConfig) (later : ℕ) (name result : Text) (m : SyncMap) (o : Option SyncStatus)
    → get m name ≡ o
    → Option.map {B = ℕ × ℕ}
        (λ s. (s.next_sync, s.last_sync))
        (get (sync_completed general later name result m) name)
      ≡ Option.map {B = ℕ × ℕ} (λ s. (later + minutes general.max_sync_delay, later)) (get m name)
unfolding sync_completed
planned general later name result m none e = rw (sync_completed, e, e) refl
planned general later name result m (some s) e =
    rw (get-sync_completed general later name result m s e, e) refl

completed-IsTurn :
    (general : GeneralConfig) (sync : Text → Outcome IoError (Unit {0}) × World × SyncLocks)
    (now later : ℕ) (m₁ : SharedMap) (name result : Text) (time : ℕ) (w : World) (locks : SyncLocks)
    → (sync name).1 ≡ w
    → time < now
    → IsTurn general sync now later m₁
        (some (name, time))
        (completed general later name result w locks m₁)
unfolding completed
completed-IsTurn general sync now later m₁ name result time w locks e h =
    elim (Bool-cases m₁.is_poisoned) [
      | inl poisoned ↦ rw (completed, poisoned) (h, inr refl)
      | inr fine ↦
          rw (completed, fine)
            (
              refl,
              h,
              e,
              refl,
              planned general later name result m₁.statuses (get m₁.statuses name) refl,
            )
    ]

noted-IsTurn :
    (general : GeneralConfig) (sync : Text → Outcome IoError (Unit {0}) × World × SyncLocks)
    (now later : ℕ) (m₁ : SharedMap) (name : Text) (time : ℕ)
    (r : Outcome IoError (Unit {0}) × World × SyncLocks)
    → sync name ≡ r
    → time < now
    → IsTurn general sync now later m₁ (some (name, time)) (noted general later name m₁ r)
unfolding noted
noted-IsTurn general sync now later m₁ name time (ok x, w, locks) e h =
    completed-IsTurn general sync now later m₁ name (lit "successful") time w locks
      (ap (λ p. p.1) e) h
noted-IsTurn general sync now later m₁ name time (err x, w, locks) e h =
    completed-IsTurn general sync now later m₁ name x.message time w locks (ap (λ p. p.1) e) h
noted-IsTurn general sync now later m₁ name time (panic, w, locks) e h = (h, inl (ap (λ p. p.0) e))

-- A turn on a schedule that is not poisoned sleeps at most ten seconds and never beyond the next
-- planned time, or it synchronises the repository that is next, once its time is past, and plans it a
-- maximal delay later; the thread ends if the synchronisation panics, or if the schedule is poisoned,
-- when the turn starts or when the synchronisation has ended, and for no other reason.
pub scheduler_turn-IsTurn :
    (general : GeneralConfig) (sync : Text → Outcome IoError (Unit {0}) × World × SyncLocks)
    (now later : ℕ) (m m₁ : SharedMap)
    → ((m.is_poisoned ≡ true) × (scheduler_turn general sync now later m m₁ ≡ dead))
      ⊎ ((m.is_poisoned ≡ false)
          × IsTurn general sync now later m₁
              (next_repo_to_sync m.statuses)
              (scheduler_turn general sync now later m m₁))
unfolding scheduler_turn
scheduler_turn-IsTurn general sync now later m m₁ = elim (Bool-cases m.is_poisoned) [
  | inl poisoned ↦ inl (poisoned, rw (scheduler_turn, poisoned) refl)
  | inr fine ↦ inr (fine, go fine (next_repo_to_sync m.statuses) refl)
]
  where
    go :
        m.is_poisoned ≡ false
        → (next : Option (Text × ℕ)) → next_repo_to_sync m.statuses ≡ next
        → IsTurn general sync now later m₁ next (scheduler_turn general sync now later m m₁)
    go fine none e = rw (scheduler_turn, fine, e) refl
    go fine (some (name, time)) e = elim (Bool-cases (leb now time)) [
      | inl wait ↦ rw (scheduler_turn, fine, e, wait) (ground arith, ground arith, ground arith)
      | inr due ↦
          rw (scheduler_turn, fine, e, due)
            (noted-IsTurn general sync now later m₁ name time (sync name) refl (ground arith))
    ]
