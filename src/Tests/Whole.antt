-- ===== src/Tests/Whole.antt =====
-- A whole synchronisation of a RedHat repository to a bucket.
use reposync.Base.{
  ◌≡◌, refl, sym, ap, ◌∙◌, inl, inr, false, none, some, [], ◌∷◌, ◌++◌, Text, lit, without_byte,
  contains_text, starts_with, text-discrete, texts-discrete, ℕ-discrete,
}
use reposync.Base.Outcome.{ok}
use reposync.Base.Members.{In}
use reposync.Config.Data.{RepositoryConfig}
use reposync.Config.Load.{parse_public_key}
use reposync.Packages.{
  Repository, IndexFile, sha256, unsigned, pgp_external, target-discrete, package-discrete,
  hash-discrete,
}
use reposync.World.{World, ◌>>=◌}
use reposync.World.Bind.{Returns}
use reposync.World.Files.{components, strip}
use reposync.State.{LiveRepoMetadataStore, SavedRepoMetadataStore, disk_path}
use reposync.Fetcher.{Fetcher, create_chain}
use reposync.Destination.S3.{s3_destination}
use reposync.Redhat.Fetch.{repo_mod_path, architectures_of}
use reposync.Sync.Diff.{Plan, repo_diff, collect, copy-discrete, delete-discrete}
use reposync.Sync.Files.{FileSpec, repository_files}
use reposync.Sync.Manager.{
  fetch_repository, load_current, validate, sync_repo_internal, data_path, tmp_path,
}
use reposync.Sync.Mirror.Bucket.{HasPaths, IsApart, IsServed}
use reposync.Sync.Mirror.Whole.{sync_repo_internal-IsServed}
use reposync.Tests.Data.{sample_crates, world, general, repository_config, bucket, package_bytes}

-- The kind is "redhat".
abbrev pub redhat_config : RepositoryConfig
redhat_config = record repository_config {
  source = record repository_config.source { kind = 114 ∷ 101 ∷ 100 ∷ 104 ∷ 97 ∷ 116 ∷ [] };
}

abbrev pub start : World
start = record world { fs = []; bucket = [] }

abbrev pub chain : Fetcher
chain = create_chain 2 none

abbrev directory : Text
directory = tmp_path general redhat_config

abbrev signature_index : IndexFile
signature_index = record {
  file_path = disk_path directory (repo_mod_path ++ lit ".asc");
  path = repo_mod_path ++ lit ".asc";
  size = 1;
  hash = sha256 package_bytes;
  signature = unsigned;
}

abbrev repomd : IndexFile
repomd = record {
  file_path = disk_path directory repo_mod_path;
  path = repo_mod_path;
  size = 1;
  hash = sha256 package_bytes;
  signature = pgp_external package_bytes;
}

abbrev pub new : Repository
new = record {
  name = redhat_config.name;
  collections =
      record {
        target = record { release_name = []; architectures = [] };
        indexes = signature_index ∷ repomd ∷ [];
        packages = [];
      }
      ∷ [];
}

abbrev pub current : Repository
current = record { name = redhat_config.name; collections = [] }

abbrev pub store : LiveRepoMetadataStore
store = record {
  repo_base_url = redhat_config.source.endpoint;
  tmp_directory = directory;
  fetcher = chain;
}

abbrev pub saved : SavedRepoMetadataStore
saved = record { directory = data_path general redhat_config }

abbrev pub downloaded : World
downloaded = (fetch_repository general chain redhat_config start).1

pub fetched : (fetch_repository general chain redhat_config start).0 ≡ ok (new, store)
unfolding fetch_repository create_chain disk_path without_byte contains_text starts_with components
    lit ◌>>=◌ ℕ-discrete text-discrete texts-discrete architectures_of
fetched = refl

pub keyless : parse_public_key redhat_config.source ≡ ok none
unfolding parse_public_key
keyless = refl

-- Without a key, the validation does nothing; then there is no stored state.
pub valid : Returns (validate none new) downloaded tt downloaded
unfolding validate ◌>>=◌
valid = refl

abbrev pub loaded : World
loaded = (load_current general redhat_config downloaded).1

pub nothing : (load_current general redhat_config downloaded).0 ≡ ok (current, saved)
unfolding load_current fetch_repository create_chain disk_path without_byte contains_text
    starts_with components lit ◌>>=◌ ℕ-discrete text-discrete texts-discrete architectures_of
nothing = refl

abbrev pub plan : Plan
plan = record {
  packages_copy = [];
  packages_delete = [];
  index_copy =
      record {
        is_replace = false;
        path = signature_index.path;
        hash = signature_index.hash;
        size = 1;
        local_file = some signature_index.file_path;
      }
      ∷ record {
        is_replace = false;
        path = repomd.path;
        hash = repomd.hash;
        size = 1;
        local_file = some repomd.file_path;
      }
      ∷ [];
  index_delete = [];
}

pub diff : repo_diff new current ≡ ok plan
unfolding repo_diff collect disk_path without_byte lit ℕ-discrete text-discrete texts-discrete
    target-discrete package-discrete copy-discrete delete-discrete
diff = refl

-- Both files have the same content.
pub same :
    (f g : FileSpec)
    → In f (repository_files new)
    → In g (repository_files new)
    → (f.hash ≡ g.hash) × (f.size ≡ g.size)
same f g (inl a) (inl b) =
    (ap (λ (z : FileSpec). z.hash) (sym a ∙ b), ap (λ (z : FileSpec). z.size) (sym a ∙ b))
same f g (inl a) (inr (inl b)) = (
  sym (ap (λ (z : FileSpec). z.hash) a) ∙ ap (λ (z : FileSpec). z.hash) b,
  sym (ap (λ (z : FileSpec). z.size) a) ∙ ap (λ (z : FileSpec). z.size) b,
)
same f g (inr (inl a)) (inl b) = (
  sym (ap (λ (z : FileSpec). z.hash) a) ∙ ap (λ (z : FileSpec). z.hash) b,
  sym (ap (λ (z : FileSpec). z.size) a) ∙ ap (λ (z : FileSpec). z.size) b,
)
same f g (inr (inl a)) (inr (inl b)) =
    (ap (λ (z : FileSpec). z.hash) (sym a ∙ b), ap (λ (z : FileSpec). z.size) (sym a ∙ b))
same f g (inr (inr a)) n = absurd a
same f g (inl a) (inr (inr b)) = absurd b
same f g (inr (inl a)) (inr (inr b)) = absurd b

paths : HasPaths (repository_files new)
paths f g m n e = same f g m n

apart : IsApart (repository_files new) plan
apart f m = (λ o n e. n, λ o n e. n)

abbrev mirrored : World
mirrored = (sync_repo_internal general chain (s3_destination bucket) redhat_config start).1

synchronised :
    (sync_repo_internal general chain (s3_destination bucket) redhat_config start).0 ≡ ok tt
unfolding sync_repo_internal s3_destination repo_diff collect load_current fetch_repository
    create_chain disk_path without_byte contains_text starts_with components strip lit ◌>>=◌
    ℕ-discrete text-discrete texts-discrete target-discrete package-discrete hash-discrete
    copy-discrete delete-discrete architectures_of
synchronised = refl

sync_repo_internal-IsServed_example : IsServed bucket mirrored (repository_files new)
sync_repo_internal-IsServed_example =
    sync_repo_internal-IsServed bucket general redhat_config 2 none none new current store saved
      plan start downloaded downloaded loaded mirrored (λ i. (fetched i, downloaded)) keyless valid
      (λ i. (nothing i, loaded)) diff paths apart tt (λ i. (synchronised i, mirrored))
