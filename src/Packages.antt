-- ===== src/Packages.antt =====
-- src/packages.rs: hashes, signatures, and the data of a repository.
pub mod Totals
pub mod Pgp
pub mod Signed
use reposync.Base.{
  ℕ, zero, suc, ◌+◌, ◌%◌, ◌^◌, ◌≡◌, Bool, true, false, ◌&&◌, Option, none, some, List, [], ◌∷◌,
  ◌++◌, Text, lit, split_once, length, Eq, ◌==◌, ℕ_eq, text_eq, ℕ_discrete, if◌then◌else◌,
}
use reposync.Base.Outcome.{Result, ok, err, panic, ◌>>=◌, io_error, invalid_data, other}
use reposync.Base.Parse.{is_utf8}
use reposync.Base.Crates.{Crates, Reader}

pub data Hash : Type 0 where
  sha1 sha256 : Text → Hash
  no_hash : Hash

pub data Signature : Type 0 where
  pgp_embedded : Signature
  pgp_external : Text → Signature
  unsigned : Signature

pub record Package : Type 0 where
  pub name : Text
  pub version : Text
  pub architecture : Text
  pub path : Text
  pub hash : Hash
  pub size : ℕ

pub record Target : Type 0 where
  pub release_name : Text
  pub architectures : List Text

pub record IndexFile : Type 0 where
  pub file_path : Text
  pub path : Text
  pub size : ℕ
  pub hash : Hash
  pub signature : Signature

pub record Collection : Type 0 where
  pub target : Target
  pub indexes : List IndexFile
  pub packages : List Package

pub record Repository : Type 0 where
  pub name : Text
  pub collections : List Collection

-- `#[derive(Eq, PartialEq)]`
unfoldable pub hash-discrete : Discrete Hash
unfolding ℕ_discrete
hash-discrete = hlevel ℕ_discrete

unfoldable pub package-discrete : Discrete Package
unfolding ℕ_discrete
package-discrete = hlevel ℕ_discrete

unfoldable pub target-discrete : Discrete Target
unfolding ℕ_discrete
target-discrete = hlevel ℕ_discrete

instance abbrev pub hash_eq : Eq Hash
hash_eq = record { dec = hash-discrete }

instance abbrev pub package_eq : Eq Package
package_eq = record { dec = package-discrete }

instance abbrev pub target_eq : Eq Target
target_eq = record { dec = target-discrete }

-- `Package::empty`
abbrev pub empty_package : Package
empty_package = record {
  name = [];
  version = [];
  architecture = [];
  path = [];
  hash = no_hash;
  size = 0;
}

-- `Collection::empty`
abbrev pub empty_collection : Target → Collection
empty_collection t = record { target = t; indexes = []; packages = [] }

-- `read_to_end`
unfoldable pub read_all : Reader → Result Text
read_all r = elim r.failure [ none ↦ ok r.content | some e ↦ err (io_error other e) ]

-- `read_to_string`, which refuses what is no UTF-8
unfoldable pub read_text : Reader → Result Text
unfolding read_all is_utf8
read_text r = do
  text ← read_all r
  if is_utf8 text
      then ok text
      else err (io_error invalid_data (lit "stream did not contain valid UTF-8"))

-- `IndexFile::same_content`; the panic is the source's safeguard.
unfoldable pub same_content : IndexFile → IndexFile → Result Bool
same_content a b =
    let same = a.path == b.path && a.size == b.size && a.hash == b.hash in
    if same && a.hash == no_hash then panic else ok same

-- `u64` addition, as a release build has it
abbrev pub add_u64 : ℕ → ℕ → ℕ
add_u64 a b = (a + b) % 2 ^ 64

index_sizes : ℕ → List IndexFile → ℕ
index_sizes acc [] = acc
index_sizes acc (i ∷ is) = index_sizes (add_u64 acc i.size) is

package_sizes : ℕ → List Package → ℕ
package_sizes acc [] = acc
package_sizes acc (p ∷ ps) = package_sizes (add_u64 acc p.size) ps

size_loop : ℕ → List Collection → ℕ
unfolding index_sizes package_sizes
size_loop acc [] = acc
size_loop acc (c ∷ cs) =
    size_loop (add_u64 (add_u64 acc (index_sizes 0 c.indexes)) (package_sizes 0 c.packages)) cs

-- `Repository::size`
unfoldable pub size : Repository → ℕ
unfolding size_loop
size r = size_loop 0 r.collections

count_loop : ℕ → List Collection → ℕ
count_loop acc [] = acc
count_loop acc (c ∷ cs) = count_loop (add_u64 acc (length c.packages)) cs

-- `Repository::count_packages`
unfoldable pub count_packages : Repository → ℕ
unfolding count_loop
count_packages r = count_loop 0 r.collections

module _ ⦃lib : Crates⦄ where
  -- `Hash::verify`, with the digest of the hasher that it is given
  verify : Reader → (Text → Text) → Text → Result Bool
  verify reader digest expected_hash = do
    bytes ← read_all reader
    ok (digest bytes == expected_hash)

  -- `Hash::matches`
  unfoldable pub matches : Hash → Reader → Result Bool
  unfolding verify read_all
  matches (sha1 hex) reader = verify reader lib.sha1_hex hex
  matches (sha256 hex) reader = verify reader lib.sha256_hex hex
  matches no_hash reader = panic

  -- `Hash::create_sha256_hash`
  unfoldable pub create_sha256_hash : Reader → Result Hash
  unfolding read_all
  create_sha256_hash reader = do bytes ← read_all reader; ok (sha256 (lib.sha256_hex bytes))

-- `"\n\n"`, and `"\n-----BEGIN PGP SIGNATURE-----"` without and with its line break.
abbrev pub blank_line : Text
blank_line = 10 ∷ 10 ∷ []

abbrev pub marker : Text
marker = lit "-----BEGIN PGP SIGNATURE-----"

abbrev pub marker_line : Text
marker_line = 10 ∷ marker

-- The third and the fourth token.
signature_of : Text × Option Text → Option (Text × Text)
signature_of (body, none) = none
signature_of (body, some forth) = some (body, marker ++ forth)

-- `Signature::extract_body_and_signature`
unfoldable pub extract_body_and_signature : Text → Option (Text × Text)
unfolding signature_of
extract_body_and_signature text = elim (split_once blank_line text).1 [
  | none ↦ none
  | some second ↦ signature_of (split_once marker_line second)
]

module _ ⦃lib : Crates⦄ where
  -- `Signature::match_internal`
  match_internal : Text → Text → Text → Result (Unit {0})
  match_internal public_key signature bytes =
      if lib.is_signature signature
      then elim (lib.verify_error signature public_key bytes) [
        | none ↦ ok tt
        | some e ↦ err (io_error invalid_data (lit "validation failed: " ++ e))
      ]
      else err (io_error invalid_data (lit "cannot parse signature"))

  -- `Signature::matches`
  unfoldable pub signature_matches : Signature → Text → Reader → Result (Unit {0})
  unfolding match_internal read_text
  signature_matches pgp_embedded public_key reader = do
    text ← read_text reader
    elim (extract_body_and_signature text) [
      | none ↦ err (io_error invalid_data (lit "cannot find pgp message & signature in file"))
      | some (body, signature) ↦ match_internal public_key signature body
    ]
  signature_matches (pgp_external signature) public_key reader = do
    bytes ← read_all reader
    match_internal public_key signature bytes
  signature_matches unsigned public_key reader = ok tt
