-- ===== src/Tests/Data.antt =====
-- A small repository, its bucket and its source.
use reposync.Base.{false, without_byte, zero, suc, true, none, some, [], ◌∷◌, Text}
use reposync.Base.Crates.{Crates, start_element, characters, end_element}
use reposync.Config.Data.{S3Config, RepositoryConfig, GeneralConfig, Config}
use reposync.Packages.{sha256, unsigned, Package, IndexFile, Repository, Target}
use reposync.World.{World, dir, file, response}
use reposync.State.{LiveRepoMetadataStore}
use reposync.Fetcher.{Fetcher}
use reposync.Destination.S3.{S3Destination}

-- Digests that are the text itself, no compression, and a document of one package.
instance abbrev pub sample_crates : Crates
sample_crates = record {
  sha1_hex = λ t. t;
  sha256_hex = λ t. t;
  base32 = without_byte 47;
  base64 = λ t. t;
  key_error = λ t. none;
  key_verify_error = λ t. none;
  is_signature = λ t. true;
  verify_error = λ s k b. none;
  captures = λ p l. none;
  gunzip = λ r. r;
  xml_events =
      λ r. start_element (112 ∷ []) [] ∷ characters r.content ∷ end_element (112 ∷ []) ∷ [];
}

-- The bytes of the package and of the index, of two paths, and of the other names.
abbrev pub package_bytes : Text
package_bytes = 65 ∷ []

abbrev pub index_bytes : Text
index_bytes = 66 ∷ 67 ∷ []

abbrev pub pool : Text
pool = 112 ∷ []

abbrev pub release : Text
release = 105 ∷ []

abbrev pub old_pool : Text
old_pool = 111 ∷ []

abbrev pub tmp : Text
tmp = 116 ∷ []

abbrev pub repo_name : Text
repo_name = 114 ∷ []

abbrev pub new_package : Package
new_package = record {
  name = pool;
  version = [];
  architecture = [];
  path = pool;
  hash = sha256 package_bytes;
  size = 1;
}

abbrev pub old_package : Package
old_package = record {
  name = old_pool;
  version = [];
  architecture = [];
  path = old_pool;
  hash = sha256 (68 ∷ []);
  size = 1;
}

abbrev pub index : IndexFile
index = record {
  file_path = 116 ∷ 47 ∷ 105 ∷ [];
  path = release;
  size = 2;
  hash = sha256 index_bytes;
  signature = unsigned;
}

abbrev pub target : Target
target = record { release_name = []; architectures = [] }

abbrev pub new_repository : Repository
new_repository = record {
  name = repo_name;
  collections = record { target = target; indexes = index ∷ []; packages = new_package ∷ [] } ∷ [];
}

abbrev pub old_repository : Repository
old_repository = record {
  name = repo_name;
  collections = record { target = target; indexes = []; packages = old_package ∷ [] } ∷ [];
}

abbrev pub bucket : S3Destination
bucket = record {
  path = [];
  s3_endpoint = [];
  s3_bucket = [];
  cloudfront_endpoint = none;
  cloudfront_arn = none;
  region_name = [];
  access_key_id = [];
  access_key_secret = [];
  max_retries = 2;
  retry_sleep = 0;
}

-- The source answers every request with the package; the first request to the cloud fails. The
-- bucket has the old package.
abbrev pub world : World
world = record {
  fs = (tmp ∷ [], dir) ∷ (tmp ∷ release ∷ [], file index_bytes) ∷ [];
  fs_calls = 0;
  fs_fault = λ n. none;
  read_only = λ p. false;
  sent = 0;
  net = λ n r. response 200 (record { content = package_bytes; failure = none });
  bucket = (old_pool, 68 ∷ []) ∷ [];
  invalidated = [];
  cloud_calls = 0;
  cloud_fault = λ n. elim n [ zero ↦ some [] | suc _ ↦ none ];
}

abbrev pub general : GeneralConfig
general = record {
  data_path = 100 ∷ [];
  tmp_path = 117 ∷ [];
  bind_address = [];
  timeout = 1;
  max_retries = 2;
  retry_sleep = 0;
  min_sync_delay = 1;
  max_sync_delay = 2;
}

abbrev pub s3_config : S3Config
s3_config = record {
  s3_endpoint = [];
  s3_bucket = [];
  path = [];
  cloudfront_endpoint = none;
  cloudfront_distribution_id = none;
  region_name = [];
  access_key_id = some [];
  access_key_secret = some [];
  aws_credential_file = none;
}

abbrev pub repository_config : RepositoryConfig
repository_config = record {
  name = repo_name;
  source = record {
    endpoint = 104 ∷ [];
    kind = 100 ∷ 101 ∷ 98 ∷ 105 ∷ 97 ∷ 110 ∷ [];
    public_pgp_key = none;
    username = none;
    password = none;
    authorization_file = none;
  };
  destination = record { s3 = some s3_config; local = none };
  versions = [];
}

abbrev pub config : Config
config = record { general = general; repo = repository_config ∷ [] }

abbrev pub store : Fetcher → LiveRepoMetadataStore
store fetcher = record { repo_base_url = 104 ∷ []; tmp_directory = tmp; fetcher = fetcher }
