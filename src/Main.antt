-- ===== src/Main.antt =====
-- src/main.rs, from the arguments that `clap` has accepted to the exit status.
pub mod Exit
use reposync.Base.{
  ℕ, Bool, Option, none, some, List, [], ◌∷◌, map, Text, lit, contains, ◌==◌, text_eq,
  if◌then◌else◌,
}
use reposync.Base.Outcome.{Outcome, ok, err, panic, IoError}
use reposync.Base.Crates.{Crates}
use reposync.Config.Data.{Config}
use reposync.Config.File.{load_config}
use reposync.Locks.{SyncLocks}
use reposync.Sync.Manager.{sync_repo}
use reposync.World.{World}

-- The validator of the argument `action`.
unfoldable pub action_validator : Text → Bool
unfolding lit
action_validator x = contains (lit "check" ∷ lit "sync" ∷ lit "server" ∷ []) x

-- The names that the option `--repo` stands for.
unfoldable pub repo_names : Config → Text → List Text
repo_names config repo_name =
    if repo_name == lit "all" then map (λ r. r.name) config.repo else repo_name ∷ []

-- The end of one turn of the loop over the names: the exit status of the process, or the rest.
after_sync : Outcome IoError (Unit {0}) → World → ℕ × World → ℕ × World
after_sync (ok x) w rest = rest
after_sync (err e) w rest = (1, w)
after_sync panic w rest = (101, w)

served : Outcome Text (Unit {0}) × World → ℕ × World
served (ok x, w) = (0, w)
served (err e, w) = (1, w)
served (panic, w) = (101, w)

module _ ⦃lib : Crates⦄ where
  -- The loop of the action `sync`: the exit status, and the state.
  sync_names : SyncLocks → Config → List Text → World → ℕ × World
  unfolding sync_repo after_sync
  sync_names locks config [] w = (0, w)
  sync_names locks config (name ∷ rest) w =
      let (r, w', locks') = sync_repo locks config name w in
      after_sync r w' (sync_names locks' config rest w')

  -- The action `sync`: one repository, or all of them. A run without a name is refused.
  unfoldable pub action_sync : Config → Option Text → World → ℕ × World
  unfolding sync_names repo_names
  action_sync config none w = (1, w)
  action_sync config (some repo_name) w = sync_names [] config (repo_names config repo_name) w

  -- `from_str` is `serde_yaml::from_str`; `serve` is the server, which runs until it fails.
  module _ (from_str : Text → Outcome Text Config)
      (serve : Config → World → Outcome Text (Unit {0}) × World) where
    -- The `match` on the action.
    run_action : Config → Text → Option Text → World → ℕ × World
    unfolding action_sync served
    run_action config action repository w =
        if action == lit "check"
        then (0, w)
        else if action == lit "sync"
        then action_sync config repository w
        else if action == lit "server"
        then served (serve config w)
        else (101, w)

    started : Outcome Text Config → Text → Option Text → World → ℕ × World
    unfolding run_action
    started (ok config) action repository w = run_action config action repository w
    started (err e) action repository w = (1, w)
    started panic action repository w = (101, w)

    -- `main`: the exit status, and the state.
    unfoldable pub main : Text → Text → Option Text → World → ℕ × World
    unfolding started load_config
    main config_file action repository w =
        let (result, w') = load_config from_str config_file w in started result action repository w'
