-- ===== src/Main/Exit.antt =====
-- What the exit status of src/main.rs says.
use mathlib.Core.Path.{subst}
use reposync.Base.{
  sym, map, ◌==◌, ==_self, eq_of_==, ◌≢◌, Bool-cases, inl, inr, ℕ, ◌≡◌, ◌↔◌, refl, ◌∙◌, some, List,
  [], ◌∷◌, Text, lit, text_eq, text-discrete, arith,
}
use reposync.Base.Outcome.{Outcome, ok, err, panic, IoError}
use reposync.Base.Crates.{Crates}
use reposync.Config.Data.{Config}
use reposync.Config.File.{load_config}
use reposync.Locks.{SyncLocks}
use reposync.Sync.Manager.{sync_repo}
use reposync.World.{World}
use reposync.World.Bind.{Returns}
use reposync.Main.{after_sync, sync_names, repo_names, started, main}

after_sync-zero :
    (r : Outcome IoError (Unit {0})) (w u : World) (rest : ℕ × World)
    → after_sync r w rest ≡ (0, u)
    → (r ≡ ok tt) × (rest ≡ (0, u))
unfolding after_sync
after_sync-zero (ok tt) w u rest h = (refl, h)
after_sync-zero (err e) w u rest h = absurd (ground arith)
after_sync-zero panic w u rest h = absurd (ground arith)

module _ ⦃lib : Crates⦄ where
  -- The repositories are synchronised one after the other, each with success, between two states.
  abbrev pub AreSynced : SyncLocks → Config → List Text → World → World → Type 0
  AreSynced locks config [] w u = w ≡ u
  AreSynced locks config (name ∷ rest) w u =
      (v : World) × (locks' : SyncLocks) × (sync_repo locks config name w ≡ (ok tt, v, locks'))
      × AreSynced locks' config rest v u

  sync_names-AreSynced :
      (locks : SyncLocks) (config : Config) (names : List Text) (w u : World)
      → sync_names locks config names w ≡ (0, u)
      → AreSynced locks config names w u
  unfolding sync_names
  sync_names-AreSynced locks config [] w u h = λ i. (h i).1
  sync_names-AreSynced locks config (name ∷ rest) w u h =
      let (synced, more) = after_sync-zero (sync_repo locks config name w).0 _ u _ h in
      (
        (sync_repo locks config name w).1,
        (sync_repo locks config name w).2,
        λ i. (synced i, (sync_repo locks config name w).1, (sync_repo locks config name w).2),
        sync_names-AreSynced (sync_repo locks config name w).2 config rest _ u more,
      )

  AreSynced-sync_names :
      (locks : SyncLocks) (config : Config) (names : List Text) (w u : World)
      → AreSynced locks config names w u
      → sync_names locks config names w ≡ (0, u)
  unfolding sync_names after_sync
  AreSynced-sync_names locks config [] w u h = λ i. (0, h i)
  AreSynced-sync_names locks config (name ∷ rest) w u (v, locks', synced, more) =
      (λ i. after_sync (synced i).0 (synced i).1 (sync_names (synced i).2 config rest (synced i).1))
      ∙ AreSynced-sync_names locks' config rest v u more

  -- The names that stand for the given one: those of all repositories in the order of the file for
  -- `all`, and the name itself for any other.
  abbrev pub AreNamed : Config → Text → List Text → Type 0
  AreNamed config repo_name names =
      (repo_name ≡ lit "all" → names ≡ map (λ r. r.name) config.repo)
      × (repo_name ≢ lit "all" → names ≡ repo_name ∷ [])

  repo_names-AreNamed :
      (config : Config) (repo_name : Text) → AreNamed config repo_name (repo_names config repo_name)
  unfolding repo_names
  repo_names-AreNamed config repo_name = elim (Bool-cases (repo_name == lit "all")) [
    | inl all ↦ (λ e. rw all refl, λ n. absurd (n (eq_of_== repo_name (lit "all") all)))
    | inr other ↦ (λ e. absurd (ground (arith, ==_self (lit "all"))), λ n. rw other refl)
  ]

  -- There is no other list of these names.
  AreNamed-repo_names :
      (config : Config) (repo_name : Text) (names : List Text)
      → AreNamed config repo_name names
      → names ≡ repo_names config repo_name
  AreNamed-repo_names config repo_name names (all, other) =
      let (all', other') = repo_names-AreNamed config repo_name in
      elim (Bool-cases (repo_name == lit "all")) [
        | inl h ↦ (let e = eq_of_== repo_name (lit "all") h in all e ∙ sym (all' e))
        | inr h ↦
            (let n : repo_name ≢ lit "all" = λ e. ground (arith, ==_self (lit "all")) in
              other n ∙ sym (other' n))
      ]

  module _ (from_str : Text → Outcome Text Config)
      (serve : Config → World → Outcome Text (Unit {0}) × World) where
    started-zero :
        (r : Outcome Text Config) (repo_name : Text) (w u : World)
        → started from_str serve r (lit "sync") (some repo_name) w ≡ (0, u)
        → (config : Config) × (r ≡ ok config)
          × (sync_names [] config (repo_names config repo_name) w ≡ (0, u))
    unfolding started lit text-discrete
    started-zero (ok config) repo_name w u h = (config, refl, h)
    started-zero (err e) repo_name w u h = absurd (ground arith)
    started-zero panic repo_name w u h = absurd (ground arith)

    started-sync :
        (config : Config) (repo_name : Text) (w : World)
        → started from_str serve (ok config) (lit "sync") (some repo_name) w
          ≡ sync_names [] config (repo_names config repo_name) w
    unfolding started lit text-discrete
    started-sync config repo_name w = refl

    -- The action `sync` exits with the status 0 exactly if the configuration file is read, parsed and
    -- accepted, and the repository of the given name, or for `all` every repository in the order of
    -- the file, has been synchronised with success, one after the other.
    pub main-AreSynced :
        (config_file repo_name : Text) (w u : World)
        → (main from_str serve config_file (lit "sync") (some repo_name) w ≡ (0, u)) ↔ (
            (config : Config) × (v : World) × (names : List Text) × Returns
              (load_config from_str config_file)
              w
              config
              v
            × AreNamed config repo_name names
            × AreSynced [] config names v u)
    unfolding main
    main-AreSynced config_file repo_name w u = (
      λ h.
          let (config, loaded, synced) =
            started-zero (load_config from_str config_file w).0 _ _ u h in
          (
            config,
            (load_config from_str config_file w).1,
            repo_names config repo_name,
            λ i. (loaded i, (load_config from_str config_file w).1),
            repo_names-AreNamed config repo_name,
            sync_names-AreSynced [] config (repo_names config repo_name) _ u synced,
          ),
      λ (config, v, names, loaded, named, synced).
          (λ i. started from_str serve (loaded i).0 (lit "sync") (some repo_name) (loaded i).1)
          ∙ started-sync config repo_name v
          ∙ AreSynced-sync_names [] config (repo_names config repo_name) v u (
              subst (λ z. AreSynced [] config z v u)
                (AreNamed-repo_names config repo_name names named) synced),
    )
