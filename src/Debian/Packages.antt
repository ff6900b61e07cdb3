-- ===== src/Debian/Packages.antt =====
-- `parse_packages` of src/debian.rs.
pub mod Printer
pub mod Fields
pub mod Keys
pub mod RoundTrip
use reposync.Base.{
  Option, none, some, List, [], ◌∷◌, ◌++◌, Text, lit, starts_with, split_once, ◌==◌, ℕ_eq, text_eq,
  if◌then◌else◌,
}
use reposync.Base.Outcome.{Result, ok, err, panic, ◌>>=◌, ◌>>◌, io_error, invalid_data, unlisted}
use reposync.Base.Crates.{Reader}
use reposync.Base.Parse.{split_lines, lines, is_utf8, parse_u64, trim, skip_first}
use reposync.Packages.{Package, sha256, empty_package}

-- The variables of the loop.
pub record State : Type 0 where
  pub key : Text
  pub value : Text
  pub packages : List Package
  pub current : Package

abbrev pub start : State
start = record { key = []; value = []; packages = []; current = empty_package }

pub data Field : Type 0 where
  name version architecture filename sha256_sum size unknown : Field

-- The `match` on the key.
unfoldable pub field_of : Text → Field
field_of key =
    if key == lit "Package"
    then name
    else if key == lit "Version"
    then version
    else if key == lit "Architecture"
    then architecture
    else if key == lit "Filename"
    then filename
    else if key == lit "SHA256"
    then sha256_sum
    else if key == lit "Size"
    then size
    else unknown

set_field : Field → Text → Package → Result Package
set_field name value p = ok (record p { name = value })
set_field version value p = ok (record p { version = value })
set_field architecture value p = ok (record p { architecture = value })
set_field filename value p = ok (record p { path = value })
set_field sha256_sum value p = ok (record p { hash = sha256 value })
set_field size value p = elim (parse_u64 (trim value)) [
  | some n ↦ ok (record p { size = n })
  | none ↦ err (io_error invalid_data (lit "invalid number " ++ trim value))
]
set_field unknown value p = ok p

-- The closure `check_and_add`.
pub check_and_add : State → Result State
unfolding field_of set_field
check_and_add s = if s.key == [] then ok s else do
  current ← set_field (field_of s.key) s.value s.current
  ok (record s { key = []; value = []; current = current })

-- The package is complete; one without a name is kept as it is.
pub finish : State → State
finish s =
    if s.current.name == []
    then s
    else record s { packages = s.packages ++ s.current ∷ []; current = empty_package }

keyed : Text → Text × Option Text → State → Result State
keyed line (key, some (c ∷ rest)) s = do
  value ← skip_first (c ∷ rest)
  ok (record s { key = key; value = value })
keyed line _ s = err (io_error invalid_data (lit "invalid line " ++ line))

-- One turn of the loop, over a line without its line break.
package_line : Text → State → Result State
unfolding check_and_add finish keyed
package_line line s =
    if line == []
    then (do s' ← check_and_add s; ok (finish s'))
    else if starts_with line (lit " ")
    then (do more ← skip_first line; ok (record s { value = s.value ++ more }))
    else do s' ← check_and_add s; keyed line (split_once (lit ":") line) s'

pub package_loop : List Text → State → Result State
unfolding package_line
package_loop [] s = ok s
package_loop (line ∷ rest) s = do
  s' ← (if is_utf8 line then package_line line s else panic)
  package_loop rest s'

-- `parse_packages`: a reader that fails gives its complete lines first.
unfoldable pub parse_packages : Reader → Result (List Package)
unfolding package_loop check_and_add finish
parse_packages input = elim input.failure [
  | none ↦ (do
    s ← package_loop (lines input.content) start
    s' ← check_and_add s
    ok (finish s').packages)
  | some e ↦ (do package_loop (split_lines input.content).0 start; err (io_error unlisted e))
]
