-- ===== src/Utils.antt =====
-- src/utils.rs: an index file that the source may lack.
pub mod Kept
use reposync.Base.{ℕ, Option, none, some, List, ◌∷◌, Text, ◌==◌, Eq, if◌then◌else◌}
use reposync.Base.Outcome.{Outcome, ok, err, panic, IoError, ErrorKind, not_found}
use reposync.Base.Crates.{Crates, Reader}
use reposync.Packages.{IndexFile, Signature, create_sha256_hash}
use reposync.World.{Io, pure, throw, abort, lift, try, unwrap, ◌>>=◌}
use reposync.State.{MetadataStore}

-- `err.kind() == ErrorKind::NotFound`
unfoldable pub kind-discrete : Discrete ErrorKind
kind-discrete = hlevel

instance abbrev pub kind_eq : Eq ErrorKind
kind_eq = record { dec = kind-discrete }

-- `unwrap` of an `Option`
unfoldable pub expect : {A : Type 0} → Option A → Io A
expect none = abort
expect (some a) = pure a

module _ ⦃lib : Crates⦄ where
  added :
      MetadataStore
      → Text
      → List IndexFile
      → Signature
      → Outcome IoError (Text × Reader × ℕ)
      → Io (Option Reader × List IndexFile)
  unfolding create_sha256_hash expect kind-discrete
  added state path indexes signature (err e) =
      if e.kind == not_found then pure (none, indexes) else throw e
  added state path indexes signature panic = abort
  added state path indexes signature (ok (disk_path, reader, size)) = do
    hash ← lift (create_sha256_hash reader)
    let index : IndexFile = record {
      file_path = disk_path;
      path = path;
      size = size;
      hash = hash;
      signature = signature;
    }
    found ← unwrap (state.read path)
    again ← expect found
    pure (some again, index ∷ indexes)

  -- `add_optional_index`: the file is read again for the caller, and stands first in the indexes.
  unfoldable pub add_optional_index :
      MetadataStore → Text → List IndexFile → Signature → Io (Option Reader × List IndexFile)
  unfolding added
  add_optional_index state path indexes signature = do
    result ← try (state.fetch path)
    added state path indexes signature result
