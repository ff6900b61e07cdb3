-- ===== src/Tests/Directory.antt =====
-- A whole synchronisation of a RedHat repository to a directory.
use reposync.Base.{
  All, ◌≡◌, refl, none, some, [], ◌∷◌, lit, without_byte, contains_text, starts_with, text-discrete,
  texts-discrete, ℕ-discrete,
}
use reposync.Base.Outcome.{ok}
use reposync.Packages.{
  signature_matches, Repository, target-discrete, package-discrete, hash-discrete,
}
use reposync.World.{World, ◌>>=◌}
use reposync.World.Files.{components, strip}
use reposync.State.{disk_path}
use reposync.Fetcher.{create_chain}
use reposync.Destination.Local.{LocalDestination, local_destination}
use reposync.Destination.Local.Lawful.{local-IsLawful}
use reposync.Redhat.Fetch.{architectures_of}
use reposync.Sync.Diff.{Plan, repo_diff, collect, copy-discrete, delete-discrete}
use reposync.Sync.Files.{repository_files}
use reposync.Config.Data.{RepositoryConfig}
use reposync.Config.Load.{parse_public_key}
use reposync.World.Bind.{Returns}
use reposync.Sync.Manager.Validated.{IsAuthentic}
use reposync.Sync.Mirror.Authentic.{sync_repo_internal-IsAuthentic}
use reposync.Sync.Manager.{
  all_indexes, validate, publish, fetch_repository, load_current, sync_repo_internal,
}
use reposync.Sync.Mirror.Mirrored.{HasPlaces, SparesAll, HoldsAll}
use reposync.Sync.Mirror.Ends.{Passes}
use reposync.Sync.Mirror.Directory.{IsApart, AreResolved, sync_repo_internal-IsStored}
use reposync.Tests.Data.{sample_crates, general}
use reposync.Tests.Whole.{
  redhat_config, start, chain, new, current, store, saved, downloaded, fetched, keyless, valid,
  loaded, nothing, plan, diff, same,
}

abbrev mirror : LocalDestination
mirror = record { path = 109 ∷ [] }

passed :
    Passes
      (local_destination mirror)
      (local-IsLawful mirror)
      general
      redhat_config
      chain
      new
      current
      plan
      start
passed = record {
  key = none;
  store = store;
  saved = saved;
  w₁ = downloaded;
  w₂ = downloaded;
  w₃ = loaded;
  fetched = λ i. (fetched i, downloaded);
  parsed = keyless;
  valid = valid;
  loaded = λ i. (nothing i, loaded);
  compared = diff;
}

apart : IsApart mirror general redhat_config
unfolding components strip lit ℕ-discrete text-discrete
apart = record { from_tmp = λ r. refl; from_state = λ r. refl; from_aside = λ r. refl }

resolved : AreResolved mirror general redhat_config new current
unfolding components lit ℕ-discrete text-discrete
resolved = record {
  directory = refl;
  temporary = refl;
  state = refl;
  new_files = (refl, (refl, tt));
  current_files = tt;
}

places : HasPlaces (local_destination mirror) (local-IsLawful mirror) (repository_files new)
places f g m n e = same f g m n

spared : SparesAll (local_destination mirror) (local-IsLawful mirror) (repository_files new) plan
spared f m = (λ o n e. n, λ o n e. n)

abbrev mirrored : World
mirrored = (sync_repo_internal general chain (local_destination mirror) redhat_config start).1

synchronised :
    (sync_repo_internal general chain (local_destination mirror) redhat_config start).0 ≡ ok tt
unfolding sync_repo_internal local_destination repo_diff collect load_current fetch_repository
    create_chain disk_path without_byte contains_text starts_with components strip lit ◌>>=◌
    ℕ-discrete text-discrete texts-discrete target-discrete package-discrete hash-discrete
    copy-discrete delete-discrete architectures_of
synchronised = refl

sync_repo_internal-IsStored_example :
    HoldsAll (local_destination mirror) (local-IsLawful mirror) mirrored (repository_files new)
sync_repo_internal-IsStored_example =
    sync_repo_internal-IsStored mirror general redhat_config 2 none new current plan start mirrored
      passed apart resolved places spared tt (λ i. (synchronised i, mirrored))

-- The source has a public key.
abbrev signed_config : RepositoryConfig
signed_config = record redhat_config {
  source = record redhat_config.source { public_pgp_key = some (107 ∷ []) };
}

keyed : parse_public_key signed_config.source ≡ ok (some (107 ∷ []))
unfolding parse_public_key
keyed = refl

authentic :
    (sync_repo_internal general chain (local_destination mirror) signed_config start).0 ≡ ok tt
unfolding sync_repo_internal local_destination repo_diff collect load_current fetch_repository
    create_chain disk_path without_byte contains_text starts_with components strip lit ◌>>=◌
    ℕ-discrete text-discrete texts-discrete target-discrete package-discrete hash-discrete
    copy-discrete delete-discrete architectures_of validate signature_matches parse_public_key
authentic = refl

sync_repo_internal-IsAuthentic_example :
    (repo : Repository) × (stored : Repository) × (p : Plan) × (t : Passes
      (local_destination mirror)
      (local-IsLawful mirror)
      general
      signed_config
      chain
      repo
      stored
      p
      start)
    × All (IsAuthentic (107 ∷ []) t.w₁) (all_indexes repo.collections)
    × Returns
        (publish general signed_config chain (local_destination mirror) t.store p)
        t.w₃
        tt
        (sync_repo_internal general chain (local_destination mirror) signed_config start).1
sync_repo_internal-IsAuthentic_example =
    sync_repo_internal-IsAuthentic (local_destination mirror) (local-IsLawful mirror) general
      signed_config chain (107 ∷ []) start
      (sync_repo_internal general chain (local_destination mirror) signed_config start).1 keyed
      (λ i. (
        authentic i,
        (sync_repo_internal general chain (local_destination mirror) signed_config start).1,
      ))
