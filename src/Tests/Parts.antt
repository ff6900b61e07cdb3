-- ===== src/Tests/Parts.antt =====
-- The parts of the program at sample data.
use reposync.Base.{
  ℕ, ◌+◌, ◌≤◌, ◌<◌, ◌≡◌, ◌≢◌, ◌↔◌, ◌⊎◌, refl, true, false, not, ◌||◌, ◌%◌, ◌^◌, Option, none, some,
  [], ◌∷◌, ◌++◌, map, Text, split_once, lit, is_some, ◌==◌, ℕ_eq, text_eq, if◌then◌else◌, All,
  IsNodup, text-discrete, texts-discrete, ℕ-discrete, starts_with,
}
use reposync.Base.Outcome.{ok, err, panic, IoError}
use reposync.Base.Crates.{Reader}
use reposync.Base.Dict.{get}
use reposync.Packages.{size, count_packages, extract_body_and_signature, marker, blank_line}
use reposync.Packages.Totals.{total, packages_in, size-total}
use reposync.Packages.Pgp.{extract_body_and_signature-parts}
use reposync.World.{World, dir, file, ◌>>=◌}
use reposync.World.Files.{node, components, is_empty_dir, strip}
use reposync.World.Files.Calls.{called}
use reposync.Config.Load.{normalize, check_config}
use reposync.Config.Load.Normalised.{AreNormalised}
use reposync.Config.Load.Verified.{IsVerified, check_config-IsVerified}
use reposync.State.{replace}
use reposync.State.Replace.{replace-stuck}
use reposync.Fetcher.{Fetcher, FetchError, retry_fetch, direct_fetch, create_chain}
use reposync.Fetcher.Retry.{Failed, IsFinal, exhausted, retry_fetch-Ends, create_chain-sent}
use reposync.Destination.S3.{upload, delete, s3_path}
use reposync.Destination.S3.Lawful.{upload-get, delete-get}
use reposync.Locks.{lock_sync, is_repo_syncing}
use reposync.Locks.Threads.{
  Reach, here, next, acquire, initial, held, held-le-one, lock_sync-free, is_repo_syncing-held,
}
use reposync.Redhat.Xml.{parse_packages, parse_repomod}
use reposync.Redhat.Xml.Consumed.{parse_packages-parse_repomod}
use reposync.Sync.Manager.{get_repo_config, sync_repo, prepare}
use reposync.Sync.Manager.Locked.{is_held, sync_repo-refused}
use reposync.Tests.Data.{
  sample_crates, new_repository, bucket, world, general, repository_config, config, store, pool,
  old_pool, repo_name, package_bytes,
}

size-total_example :
    (size new_repository ≡ total new_repository.collections % 2 ^ 64)
    × (count_packages new_repository ≡ packages_in new_repository.collections % 2 ^ 64)
size-total_example = size-total new_repository

-- A file with an embedded signature.
abbrev signed : Text
signed = blank_line ++ (pool ++ (10 ∷ (marker ++ pool)))

extracted : extract_body_and_signature signed ≡ some (pool, marker ++ pool)
unfolding extract_body_and_signature split_once lit ℕ-discrete
extracted = refl

extract_body_and_signature-parts_example :
    (head : Text) × (rest : Text) × (marker ++ pool ≡ marker ++ rest)
    × (signed ≡ head ++ (blank_line ++ (pool ++ (10 ∷ (marker ++ pool)))))
extract_body_and_signature-parts_example =
    extract_body_and_signature-parts signed pool (marker ++ pool) extracted

abbrev body : Reader
body = record { content = package_bytes; failure = none }

-- The first request fails.
uploaded : (upload bucket pool body world).0 ≡ ok tt
unfolding upload ◌>>=◌
uploaded = refl

upload-get_example :
    get (upload bucket pool body world).1.bucket old_pool
    ≡ (if s3_path bucket pool == old_pool then some package_bytes else get world.bucket old_pool)
upload-get_example = upload-get bucket pool body world old_pool uploaded

deleted : (delete bucket old_pool world).0 ≡ ok tt
unfolding delete ◌>>=◌
deleted = refl

delete-get_example :
    get (delete bucket old_pool world).1.bucket old_pool
    ≡ (if s3_path bucket old_pool == old_pool then none else get world.bucket old_pool)
delete-get_example = delete-get bucket old_pool world old_pool deleted

one_holder : Reach (record { locks = (lock_sync [] repo_name).1; holders = (1, repo_name) ∷ [] })
unfolding lock_sync
one_holder = next here (acquire initial 1 repo_name refl)

held-le-one_example : held repo_name ((1, repo_name) ∷ []) ≤ 1
held-le-one_example = held-le-one repo_name one_holder

lock_sync-free_example :
    ((lock_sync (lock_sync [] repo_name).1 repo_name).0 ≡ true)
    ↔ (held repo_name ((1, repo_name) ∷ []) ≡ 0)
lock_sync-free_example = lock_sync-free repo_name one_holder

is_repo_syncing-held_example : is_repo_syncing (lock_sync [] repo_name).1 repo_name ≡ (
    not (is_some (get (lock_sync [] repo_name).1 repo_name))
    || held repo_name ((1, repo_name) ∷ []) == 1)
is_repo_syncing-held_example = is_repo_syncing-held repo_name one_holder

configured : get_repo_config config repo_name ≡ some repository_config
unfolding get_repo_config ℕ-discrete text-discrete
configured = refl

locked : is_held ((repo_name, true) ∷ []) repo_name ≡ true
unfolding ℕ-discrete text-discrete
locked = refl

sync_repo-refused_example :
    ((sync_repo ((repo_name, true) ∷ []) config repo_name world).0 ≢ ok tt)
    × ((sync_repo ((repo_name, true) ∷ []) config repo_name world).1
        ≡ (prepare general repository_config world).1)
sync_repo-refused_example =
    sync_repo-refused ((repo_name, true) ∷ []) config repo_name repository_config world configured
      locked

abbrev direct : Fetcher
direct = direct_fetch none

retry_fetch-Ends_example :
    (k : ℕ) × (last : Option FetchError) × (u : World) × Failed direct pool world k last u
    × (((k < 2)
          × IsFinal direct pool (direct pool u).0
          × (retry_fetch direct 2 pool world ≡ direct pool u))
        ⊎ ((k ≡ 2) × (retry_fetch direct 2 pool world ≡ (exhausted direct pool last, u))))
retry_fetch-Ends_example = retry_fetch-Ends direct pool 2 world

create_chain-sent_example :
    (world.sent ≤ (create_chain 2 none pool world).1.sent)
    × ((create_chain 2 none pool world).1.sent ≤ world.sent + 2)
create_chain-sent_example = create_chain-sent 2 none pool world

accepted : (check_config config world).0 ≡ ok (record config { repo = map normalize config.repo })
unfolding check_config normalize lit ◌>>=◌ ℕ-discrete text-discrete starts_with
accepted = refl

check_config-IsVerified_example :
    (config.general ≡ config.general)
    × AreNormalised config.repo (map normalize config.repo)
    × All (IsVerified []) (map normalize config.repo)
    × IsNodup (map (λ r. r.name) (map normalize config.repo))
check_config-IsVerified_example =
    check_config-IsVerified config (record config { repo = map normalize config.repo }) world
      (check_config config world).1 (λ i. (accepted i, (check_config config world).1))

parse_packages-parse_repomod_example : (parse_packages body ≢ panic) × (parse_repomod body ≢ panic)
parse_packages-parse_repomod_example = parse_packages-parse_repomod body

-- What an interrupted replacement left beside the stored state, "d" and "d__".
abbrev left_over : World
left_over = record world {
  fs =
      (general.data_path ∷ [], dir)
      ∷ ((100 ∷ 95 ∷ 95 ∷ []) ∷ [], dir)
      ∷ ((100 ∷ 95 ∷ 95 ∷ []) ∷ pool ∷ [], file [])
      ∷ [];
}

state_there : node left_over.fs (components general.data_path) ≡ some dir
unfolding components ℕ-discrete text-discrete texts-discrete
state_there = refl

left_there : node left_over.fs (components (general.data_path ++ lit "__")) ≡ some dir
unfolding components lit ℕ-discrete text-discrete texts-discrete
left_there = refl

left_entry : is_empty_dir (components (general.data_path ++ lit "__")) left_over.fs ≡ false
unfolding is_empty_dir strip components lit ℕ-discrete text-discrete texts-discrete
left_entry = refl

replace-stuck_example :
    (e : IoError) × (replace (store direct) general.data_path left_over
      ≡ (err e, called (called left_over)))
replace-stuck_example =
    replace-stuck (store direct) general.data_path left_over (λ k. refl) state_there left_there
      left_entry
