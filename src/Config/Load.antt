-- ===== src/Config/Load.antt =====
-- `load_config` of src/config.rs: the slashes are normalised, then every repository is verified.
pub mod Normalised
pub mod Verified
use mathlib.Core.List.{reverse}
use mathlib.Core.Option
use reposync.Base.{
  ℕ, Bool, true, false, not, ◌&&◌, ◌||◌, Option, none, some, List, [], ◌∷◌, ◌++◌, map, Text, lit,
  starts_with, without_byte, split_once, contains, is_some, ◌==◌, text_eq, if◌then◌else◌,
}
use reposync.Base.Outcome.{Outcome, ok, err, panic, IoError, io_error, invalid_data, invalid_input}
use reposync.Base.Crates.{Crates, Reader}
use reposync.Packages.{read_text}
use reposync.World.{World, Exec, Io, pure, throw, abort, lift, try, ◌>>=◌, ◌>>◌}
use reposync.World.Files.{open_file}
use reposync.Config.Data.{
  SourceConfig, S3Config, LocalConfig, DestinationConfig, RepositoryConfig, GeneralConfig, Config,
}

-- `SourceConfig::get_authorization_secret`: the user and the password, or the text of a file.
authorization_from : Option Text → Option Text → Option Text → Io (Option Text)
unfolding open_file read_text
authorization_from (some username) (some password) file =
    pure (some (username ++ lit ":" ++ password))
authorization_from _ _ (some file) = do
  reader ← open_file file
  text ← lift (read_text reader)
  pure (some (without_byte 13 (without_byte 10 text)))
authorization_from _ _ none = pure none

unfoldable pub get_authorization_secret : SourceConfig → Io (Option Text)
unfolding authorization_from
get_authorization_secret s = authorization_from s.username s.password s.authorization_file

-- The two lines of a credential file.
credential_lines : Text × Option Text → Io (Text × Text)
credential_lines (id, some secret) =
    pure (without_byte 13 (without_byte 10 id), without_byte 13 (without_byte 10 secret))
credential_lines (_, none) = throw (
    io_error invalid_input (
      lit "invalid aws credential file, expected: "
      ++ 34 ∷ lit "access_key_id"
      ++ 10 ∷ lit "access_key_secret"
      ++ 34 ∷ []))

credentials_from : Option Text → Option Text → Option Text → Io (Text × Text)
unfolding credential_lines open_file read_text
credentials_from (some id) (some secret) file = pure (id, secret)
credentials_from _ _ (some file) = do
  reader ← open_file file
  text ← lift (read_text reader)
  credential_lines (split_once (10 ∷ []) text)
credentials_from _ _ none = throw (io_error invalid_input (lit "missing aws credential"))

-- `S3Destination::get_aws_credentials`
unfoldable pub get_aws_credentials : S3Config → Io (Text × Text)
unfolding credentials_from
get_aws_credentials s = credentials_from s.access_key_id s.access_key_secret s.aws_credential_file

unfoldable pub remove_initial_slash : Text → Text
remove_initial_slash [] = []
remove_initial_slash (c ∷ s) = if starts_with (c ∷ s) (lit "/") then s else c ∷ s

unfoldable pub remove_trailing_slash : Text → Text
unfolding remove_initial_slash
remove_trailing_slash s = reverse (remove_initial_slash (reverse s))

-- The normalisation of one repository.
normalize_s3 : S3Config → S3Config
normalize_s3 s = record s {
  s3_endpoint = remove_trailing_slash s.s3_endpoint;
  path = remove_initial_slash (remove_trailing_slash s.path);
  cloudfront_endpoint = Option.map remove_trailing_slash s.cloudfront_endpoint;
}

normalize_local : LocalConfig → LocalConfig
normalize_local l = record { path = remove_trailing_slash l.path }

unfoldable pub normalize : RepositoryConfig → RepositoryConfig
unfolding normalize_s3 normalize_local remove_trailing_slash
normalize r = record r {
  source = record r.source { endpoint = remove_trailing_slash r.source.endpoint };
  destination = record {
    s3 = Option.map normalize_s3 r.destination.s3;
    local = Option.map normalize_local r.destination.local;
  };
}

-- `Result<_, String>`
abbrev pub Check : Type 0 → Type 0
Check A = Exec Text A

-- `if let Err(err) = .. { return Err(format!(.., err)) }`
unfoldable pub reported : {A : Type 0} → Text → Outcome IoError A → Check A
reported message (ok a) = pure a
reported message (err e) = throw (message ++ e.message)
reported message panic = abort

require : Bool → Text → Check (Unit {0})
require true message = pure tt
require false message = throw message

module _ ⦃lib : Crates⦄ where
  -- `SourceConfig::parse_public_key`
  unfoldable pub parse_public_key : SourceConfig → Outcome IoError (Option Text)
  parse_public_key s = elim s.public_pgp_key [
    | none ↦ ok none
    | some key ↦ elim (lib.key_error key) [
      | none ↦ ok (some key)
      | some code ↦ err (io_error invalid_data (lit "cannot parse public key: " ++ code))
    ]
  ]

  verify_key : Option Text → Check (Unit {0})
  verify_key none = pure tt
  verify_key (some key) = elim (lib.key_verify_error key) [
    | none ↦ pure tt
    | some e ↦ throw (lit "cannot verify public key: " ++ e)
  ]

  verify_s3 : Option S3Config → Check (Unit {0})
  unfolding reported get_aws_credentials
  verify_s3 none = pure tt
  verify_s3 (some s) = do
    r ← try (get_aws_credentials s)
    reported (lit "cannot read aws credential: ") r
    pure tt

  verify_local : Option LocalConfig → Check (Unit {0})
  unfolding require
  verify_local none = pure tt
  verify_local (some l) =
      require (starts_with l.path (lit "/")) (lit "local destination path must be absolute")

  -- The body of the second loop.
  verify_one : List Text → RepositoryConfig → Check (Unit {0})
  unfolding require reported parse_public_key verify_key verify_s3 verify_local
      get_authorization_secret
  verify_one used_names repo = do
    require (not (repo.name == lit "all"))
        (lit "'all' was used as repository name, but it's a reserved word'")
    require (not (contains used_names repo.name))
        (lit "'" ++ repo.name ++ lit "' was used as repository name twice")
    require (repo.source.kind == lit "debian" || repo.source.kind == lit "redhat") (
        lit "unknown repository type '"
        ++ repo.source.kind
        ++ lit "', only 'debian' and 'redhat' are supported")
    secret ← try (get_authorization_secret repo.source)
    reported (lit "cannot parse authorization: ") secret
    key ← reported [] (parse_public_key repo.source)
    verify_key key
    require (not (is_some repo.destination.s3 && is_some repo.destination.local))
        (lit "cannot have both s3 and local destination")
    require (is_some repo.destination.s3 || is_some repo.destination.local)
        (lit "you must define at least one destination, either local or s3")
    verify_s3 repo.destination.s3
    verify_local repo.destination.local

  verify_loop : List Text → List RepositoryConfig → Check (Unit {0})
  unfolding verify_one
  verify_loop used_names [] = pure tt
  verify_loop used_names (repo ∷ rest) = do
    verify_one used_names repo
    verify_loop (used_names ++ repo.name ∷ []) rest

  -- `load_config` behind the YAML parser: what `serde_yaml` made of the file is the argument.
  unfoldable pub check_config : Config → Check Config
  unfolding verify_loop normalize
  check_config config =
      let config' : Config = record config { repo = map normalize config.repo } in
      do verify_loop [] config'.repo; pure config'
