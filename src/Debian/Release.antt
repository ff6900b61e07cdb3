-- ===== src/Debian/Release.antt =====
-- `parse_release` of src/debian.rs.
use reposync.Base.{
  Bool, true, false, Option, none, some, List, [], ◌∷◌, ◌++◌, Text, lit, starts_with, split_once,
  ◌==◌, ℕ_eq, text_eq, if◌then◌else◌,
}
use reposync.Base.Outcome.{Result, ok, err, panic, ◌>>=◌, ◌>>◌, io_error, invalid_data, unlisted}
use reposync.Base.Crates.{Crates, Reader}
use reposync.Base.Parse.{split_lines, lines, is_utf8, parse_u64, trim, split_spaces}
use reposync.Packages.{IndexFile, sha256, unsigned}

-- `struct Release`
pub record Release : Type 0 where
  pub codename : Text
  pub components : List Text
  pub architectures : List Text
  pub indexes : List IndexFile

abbrev pub empty_release : Release
empty_release = record { codename = []; components = []; architectures = []; indexes = [] }

abbrev pub pattern : Text
pattern = lit " *([a-z0-9]+) *([0-9]+) *(.*)"

-- The index of one line of the SHA256 block, from the groups of the match.
index_of_groups : Text → Text → Option (List Text) → Result IndexFile
index_of_groups line base_path (some (_ ∷ hex ∷ digits ∷ path ∷ [])) = elim (parse_u64 digits) [
  | none ↦
      err
        (io_error invalid_data (lit "cannot parse release file, invalid number in line: " ++ line))
  | some size ↦ ok (record {
    file_path = [];
    path = base_path ++ lit "/" ++ path;
    size = size;
    hash = sha256 hex;
    signature = unsigned;
  })
]
index_of_groups line base_path _ =
    err (io_error invalid_data (lit "cannot parse release file, invalid line: " ++ line))

-- The fields that are read; another key is skipped. The flag is that of `parsing_sha256`.
field_line : Text → Text → Release → Release × Bool
field_line key value release =
    if key == lit "Codename"
    then (record release { codename = value }, false)
    else if key == lit "Components"
    then (record release { components = split_spaces value }, false)
    else if key == lit "Architectures"
    then (record release { architectures = split_spaces value }, false)
    else (release, key == lit "SHA256")

keyed_line : Text → Text × Option Text → Release → Result (Release × Bool)
unfolding field_line
keyed_line line (key, some value) release = ok (field_line key (trim value) release)
keyed_line line (_, none) release =
    err (io_error invalid_data (lit "cannot parse release file, invalid line: " ++ line))

module _ ⦃lib : Crates⦄ where
  -- One turn of the loop, over a line without its line break.
  release_line : Text → Text → Release × Bool → Result (Release × Bool)
  unfolding index_of_groups keyed_line
  release_line base_path line (release, parsing_sha256) =
      if starts_with line (lit " ")
      then (if parsing_sha256
          then (do
            index ← index_of_groups line base_path (lib.captures pattern line)
            ok (record release { indexes = release.indexes ++ index ∷ [] }, true))
          else ok (release, false))
      else keyed_line line (split_once (lit ":") line) release

  release_loop : Text → List Text → Release × Bool → Result (Release × Bool)
  unfolding release_line
  release_loop base_path [] state = ok state
  release_loop base_path (line ∷ rest) state = do
    state' ← (if is_utf8 line then release_line base_path line state else panic)
    release_loop base_path rest state'

  -- `parse_release`: a reader that fails gives its complete lines first.
  unfoldable pub parse_release : Reader → Text → Result Release
  unfolding release_loop
  parse_release input base_path = elim input.failure [
    | none ↦ (do
      state ← release_loop base_path (lines input.content) (empty_release, false)
      ok state.0)
    | some e ↦ (do
      release_loop base_path (split_lines input.content).0 (empty_release, false)
      err (io_error unlisted e))
  ]
