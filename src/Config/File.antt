-- ===== src/Config/File.antt =====
-- `load_config` of src/config.rs: the file is read and parsed, and what it says is checked.
use reposync.Base.{◌++◌, Text, lit}
use reposync.Base.Outcome.{Outcome, ok, err, panic}
use reposync.Base.Crates.{Crates}
use reposync.Config.Data.{Config}
use reposync.Config.Load.{Check, reported, check_config}
use reposync.Packages.{read_text}
use reposync.World.{Io, pure, throw, abort, lift, try, ◌>>=◌}
use reposync.World.Files.{open_file}

-- `fs::read_to_string`
read_to_string : Text → Io Text
unfolding open_file read_text
read_to_string path = do reader ← open_file path; lift (read_text reader)

parsed : Text → Outcome Text Config → Check Config
parsed path (ok config) = pure config
parsed path (err e) = throw (lit "Cannot parse file " ++ path ++ lit ": " ++ e)
parsed path panic = abort

module _ ⦃lib : Crates⦄ where
  -- The first argument is `serde_yaml::from_str`.
  unfoldable pub load_config : (Text → Outcome Text Config) → Text → Check Config
  unfolding read_to_string parsed reported check_config
  load_config from_str path = do
    result ← try (read_to_string path)
    text ← reported (lit "Cannot read file " ++ path ++ lit ": ") result
    config ← parsed path (from_str text)
    check_config config
