-- ===== src/Lib.antt =====
-- RepoSync mirrors Debian and RedHat repositories to a bucket or to a local directory.
--
-- The parts, and the files that model them:
--   * Base: texts as lists of bytes, results (a value, an error or a panic), ordered maps, the parts
--     of the standard library that the parsers use, and the third-party code as the record `Crates`.
--   * World: the state that the program acts on (the file system, the network, the bucket, and
--     which of their calls fail), the monad `Exec` of actions on it, and the frames of its calls.
--     `fs_fault`, `net` and `cloud_fault` give the outcome of a call by its number, so that a
--     theorem on every world is one on every order of faults. Files/Below and Files/Moves have the
--     laws of the calls that take a whole directory.
--   * Packages: src/packages.rs; hashes, signatures and the data of a repository.
--   * Fetcher: src/fetcher.rs; one request, and the retries around it.
--   * Destination: src/destination.rs; the trait is a record, `IsLawful` is what its client relies
--     on, and Destination/S3/Lawful has the laws of the bucket.
--   * State: src/state.rs and the replacement of the stored indexes, what it leaves (Replaced) and
--     what it does not touch (Outside); Utils: src/utils.rs.
--   * Debian, Redhat: src/debian.rs and src/redhat.rs; the parsers, and the loops that fetch or load
--     a repository through a store.
--   * Config: src/config.rs; Load checks the value that the YAML parser gives, Load/Normalised says
--     what its normal form is, and File reads the file.
--   * Sync: src/sync.rs. Diff is `repo_diff`, Copy is `copy`, Manager is `sync_repo` with all it
--     calls, Scheduler is the thread and its map under a mutex, and Mirror has the theorems on what a
--     synchronisation leaves: Ends at any lawful destination, Whole in a bucket, Directory in a
--     directory, and Atomic in the stored state. Files says which files a repository serves.
--   * Locks: the sync locks of src/locks.rs, and in Threads the threads as a step relation. Server:
--     src/server.rs; Poison says what a panic under the guard of the schedule does. Main:
--     src/main.rs.
--   * Api: the crate generated/: its trait, the service of src/server/mod.rs and the client of
--     src/client/mod.rs. Models is the form of a status as a query parameter, Laws has what client
--     and service need of the code for URIs, encodings and JSON, and Implementation is the server
--     as one of the trait.
--   * Tests: runs at small data.
--
-- A function keeps its name; the body of a loop is a function of its own, and a loop is a recursion
-- on its list. The retries count down the attempts that are left. Only the outer loops over XML
-- events have fuel, one more than the number of events; each turn takes an event, so that it does
-- not run out.
--
-- The YAML parser and the running server are arguments of Config/File and Main. The stream of an
-- upload counts its reads, each of one byte at least, so that fuel above the length of the file is
-- enough; `decimal` of Base/Parse has fuel above the number.
--
-- Not modelled: the times of waits, what is printed, the parsing of the command line, the
-- connections of the API, and its header.rs and context.rs; nor the write locks of src/locks.rs,
-- whose guards are references into a map that a later insert may move: where the code takes one, it
-- is taken to be free and not poisoned. A path is taken from the root, nothing is a link, and the
-- name `..` in a path is not resolved: it is a name as any other, so that a theorem on files says
-- nothing of a path with it. An error's message leaves out numbers and the texts of
-- library errors. A failing call of the file system or of the cloud changes nothing. `trim` knows
-- the white space of ASCII. The sum of a time and a delay does not overflow.
pub mod Base
pub mod Packages
pub mod World
pub mod Fetcher
pub mod Destination
pub mod Sync
pub mod State
pub mod Utils
pub mod Debian
pub mod Config
pub mod Redhat
pub mod Locks
pub mod Server
pub mod Api
pub mod Main
pub mod Tests
