-- ===== src/Debian/Packages/Printer.antt =====
-- The format of a Packages index that `parse_packages` of src/debian.rs reads, written down. The
-- printer is no part of the program.
use reposync.Base.{◌^◌, ◌<◌, ◌≡◌, ◌≢◌, List, [], ◌∷◌, ◌++◌, Text, lit}
use reposync.Base.Parse.Decimal.{decimal}
use reposync.Base.Parse.Lines.{IsText, unlines}
use reposync.Packages.{Package, Hash, no_hash, sha1, sha256}

abbrev pub field : Text → Text → Text
field key value = key ++ (58 ∷ 32 ∷ value)

abbrev pub hex_of : Hash → Text
hex_of (sha256 hex) = hex
hex_of (sha1 hex) = hex
hex_of no_hash = []

-- One line for each field, and an empty line behind the package.
unfoldable pub package_lines : Package → List Text
package_lines p =
    field (lit "Package") p.name
    ∷ field (lit "Version") p.version
    ∷ field (lit "Architecture") p.architecture
    ∷ field (lit "Filename") p.path
    ∷ field (lit "SHA256") (hex_of p.hash)
    ∷ field (lit "Size") (decimal p.size)
    ∷ []
    ∷ []

unfoldable pub packages_lines : List Package → List Text
unfolding package_lines
packages_lines [] = []
packages_lines (p ∷ ps) = package_lines p ++ packages_lines ps

unfoldable pub print_packages : List Package → Text
unfolding packages_lines
print_packages ps = unlines (packages_lines ps)

-- A package that the format can hold: its texts stand in one line, it has a name, and its hash is
-- a SHA256.
pub record IsPrintable (p : Package) : Type 0 where
  pub named : p.name ≢ []
  pub name_text : IsText p.name
  pub version_text : IsText p.version
  pub architecture_text : IsText p.architecture
  pub path_text : IsText p.path
  pub hex_text : IsText (hex_of p.hash)
  pub has_sha256 : p.hash ≡ sha256 (hex_of p.hash)
  pub fits : p.size < 2 ^ 64
