-- ===== src/Tests/Processes.antt =====
-- The stream of an upload, the health check and the process at sample data.
use reposync.Base.{ℕ, ◌≡◌, ◌↔◌, suc, Option, none, some, List, [], Text, lit, arith}
use reposync.Base.Outcome.{Outcome, ok, IoError, io_error, other}
use reposync.World.{World}
use reposync.World.Bind.{Returns}
use reposync.Config.Data.{Config}
use reposync.Config.File.{load_config}
use reposync.Destination.Stream.{collect}
use reposync.Destination.Stream.Whole.{IsWhole, collect-IsWhole}
use reposync.Sync.Manager.Permissions.Checked.{IsHealthy}
use reposync.Server.{health_get, empty_response_when_everything_is_ok}
use reposync.Server.Health.{health_get-IsHealthy}
use reposync.Main.{main}
use reposync.Main.Exit.{AreNamed, AreSynced, main-AreSynced}
use reposync.Tests.Data.{sample_crates, world, general, config, repo_name}

-- The second read gives one byte, and the third fails.
abbrev faults : ℕ → Option IoError
faults n = elim n [ suc (suc (suc _)) ↦ some (io_error other []) | _ ↦ none ]

collect-IsWhole_example :
    IsWhole repo_name faults (collect 9 faults (λ n. 0) 0 (record { file = repo_name }))
collect-IsWhole_example = collect-IsWhole 9 faults (λ n. 0) 0 repo_name (omega arith)

health_get-IsHealthy_example :
    (health_get config world ≡ ok empty_response_when_everything_is_ok) ↔ IsHealthy general world
health_get-IsHealthy_example = health_get-IsHealthy config world

abbrev from_str : Text → Outcome Text Config
from_str text = ok config

abbrev serve : Config → World → Outcome Text (Unit {0}) × World
serve c w = (ok tt, w)

main-AreSynced_example :
    (main from_str serve repo_name (lit "sync") (some (lit "all")) world ≡ (0, world)) ↔ (
      (c : Config) × (v : World) × (names : List Text) × Returns
        (load_config from_str repo_name)
        world
        c
        v
      × AreNamed c (lit "all") names
      × AreSynced [] c names v world)
main-AreSynced_example = main-AreSynced from_str serve repo_name (lit "all") world world
