-- ===== src/Tests/Stored.antt =====
-- The stored state of the sample repository.
use reposync.Base.{
  ◌≡◌, refl, false, none, List, [], ◌∷◌, ◌++◌, Text, lit, ℕ-discrete, text-discrete, texts-discrete,
}
use reposync.Base.Outcome.{ok}
use reposync.World.{World, dir, file, ◌>>=◌}
use reposync.World.Files.{components, is_below, strip, is_empty_dir}
use reposync.World.Files.Frame.{content}
use reposync.Fetcher.{create_chain}
use reposync.Fetcher.Quiet.{create_chain-SameFiles}
use reposync.Destination.S3.{s3_destination}
use reposync.State.{LiveRepoMetadataStore, replace}
use reposync.State.Replaced.{AreApart, replace-moved}
use reposync.Sync.Manager.{data_path, tmp_path, sync_repo_internal}
use reposync.Sync.Manager.Kept.{made}
use reposync.Sync.Mirror.Atomic.{UpTo, s3-Spares, sync_repo_internal-UpTo}
use reposync.Tests.Data.{sample_crates, world, general, repository_config, bucket, store, pool}

-- A file of the stored state.
abbrev stored : List Text
stored = components (data_path general repository_config) ++ pool ∷ []

outside : is_below (components (tmp_path general repository_config)) stored ≡ false
unfolding components strip lit ℕ-discrete text-discrete
outside = refl

sync_repo_internal-UpTo_example :
    UpTo stored
      (replace
        (made repository_config.source.endpoint
          (tmp_path general repository_config)
          (create_chain 2 none))
        (data_path general repository_config))
      (sync_repo_internal general (create_chain 2 none) (s3_destination bucket) repository_config)
      world
sync_repo_internal-UpTo_example =
    sync_repo_internal-UpTo stored general (create_chain 2 none) (s3_destination bucket)
      repository_config world outside (create_chain-SameFiles 2 none) (s3-Spares stored bucket)

-- The stored state has one file, and the download another one.
abbrev path : Text
path = 100 ∷ 47 ∷ 114 ∷ []

abbrev live : LiveRepoMetadataStore
live = record (store (create_chain 2 none)) { tmp_directory = 100 ∷ 47 ∷ 116 ∷ [] }

abbrev two_states : World
two_states = record world {
  fs =
      ((100 ∷ []) ∷ [], dir)
      ∷ ((100 ∷ []) ∷ (114 ∷ []) ∷ [], dir)
      ∷ ((100 ∷ []) ∷ (114 ∷ []) ∷ pool ∷ [], file [])
      ∷ ((100 ∷ []) ∷ (116 ∷ []) ∷ [], dir)
      ∷ ((100 ∷ []) ∷ (116 ∷ []) ∷ pool ∷ [], file pool)
      ∷ [];
}

apart : AreApart (components path) (components (path ++ lit "__")) (components live.tmp_directory)
unfolding components strip lit ℕ-discrete text-discrete
apart = record { directory_path = λ r. refl; directory_aside = λ r. refl; path_aside = λ r. refl }

replaced : (replace live path two_states).0 ≡ ok tt
unfolding replace components strip is_empty_dir lit ◌>>=◌ ℕ-discrete text-discrete texts-discrete
replaced = refl

replace-moved_example :
    (content (replace live path two_states).1 (components path ++ pool ∷ [])
      ≡ content two_states (components live.tmp_directory ++ pool ∷ []))
    × (content (replace live path two_states).1 (components live.tmp_directory ++ pool ∷ []) ≡ none)
replace-moved_example =
    replace-moved live path two_states (replace live path two_states).1 (pool ∷ []) apart
      (λ i. (replaced i, (replace live path two_states).1))
