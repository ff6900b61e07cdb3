-- ===== src/Debian/Packages/RoundTrip.antt =====
-- `parse_packages` of src/debian.rs reads back what is printed of packages.
use mathlib.Core.List.{append-nil, append_assoc}
use reposync.Base.{
  ◌≡◌, ◌≢◌, refl, sym, ap, ◌∙◌, false, none, List, [], ◌∷◌, ◌++◌, Text, arith, ℕ_eq, text_eq,
  text-discrete, All, All-append, contains,
}
use reposync.Base.Outcome.{ok}
use reposync.Base.Parse.{is_utf8}
use reposync.Base.Parse.Decimal.{decimal}
use reposync.Base.Parse.Lines.{lines-unlines, decimal-IsText}
use reposync.Packages.{Package, sha256, empty_package}
use reposync.Debian.Packages.{
  State, check_and_add, finish, package_line, package_loop, parse_packages,
}
use reposync.Debian.Packages.Printer.{
  hex_of, package_lines, packages_lines, print_packages, IsPrintable,
}
use reposync.Debian.Packages.Fields.{field_line, package_line-field}
use reposync.Debian.Packages.Keys.{
  plain, package-IsKey, version-IsKey, architecture-IsKey, filename-IsKey, sha256-IsKey, size-IsKey,
  check_and_add-nothing, check_and_add-package, check_and_add-version, check_and_add-architecture,
  check_and_add-filename, check_and_add-sha256, check_and_add-size,
}

-- An empty line ends a package.
package_loop-nil :
    (ls : List Text) (s s' : State)
    → check_and_add s ≡ ok s'
    → package_loop ([] ∷ ls) s ≡ package_loop ls (finish s')
unfolding package_loop package_line is_utf8 text-discrete
package_loop-nil ls s s' added = rw added refl

-- The package that the fields of another make.
abbrev restored : Package → Package
restored p = record p { hash = sha256 (hex_of p.hash) }

finish-named :
    (acc : List Package) (p : Package)
    → p.name ≢ []
    → finish (plain acc p) ≡ plain (acc ++ p ∷ []) empty_package
unfolding finish
finish-named acc p named = ground (arith, named)

package_loop-package :
    (p : Package) (acc : List Package) (ls : List Text)
    → IsPrintable p
    → package_loop (package_lines p ++ ls) (plain acc empty_package)
      ≡ package_loop ls (plain (acc ++ p ∷ []) empty_package)
unfolding package_lines
package_loop-package p acc ls h =
    let p₁ : Package = record empty_package { name = p.name } in
    let p₂ : Package = record p₁ { version = p.version } in
    let p₃ : Package = record p₂ { architecture = p.architecture } in
    let p₄ : Package = record p₃ { path = p.path } in
    let p₅ : Package = record p₄ { hash = sha256 (hex_of p.hash) } in
    package_line-field _ p.name _ _ _ package-IsKey h.name_text
      (check_and_add-nothing acc empty_package)
    ∙ package_line-field _ p.version _ _ _ version-IsKey h.version_text
        (check_and_add-package p.name acc empty_package)
    ∙ package_line-field _ p.architecture _ _ _ architecture-IsKey h.architecture_text
        (check_and_add-version p.version acc p₁)
    ∙ package_line-field _ p.path _ _ _ filename-IsKey h.path_text
        (check_and_add-architecture p.architecture acc p₂)
    ∙ package_line-field _ (hex_of p.hash) _ _ _ sha256-IsKey h.hex_text
        (check_and_add-filename p.path acc p₃)
    ∙ package_line-field _ (decimal p.size) _ _ _ size-IsKey (decimal-IsText p.size)
        (check_and_add-sha256 (hex_of p.hash) acc p₄)
    ∙ package_loop-nil ls _ _ (check_and_add-size p.size acc p₅ h.fits)
    ∙ ap (package_loop ls) (finish-named acc (restored p) h.named)
    ∙ (λ i.
        package_loop ls
          (plain (acc ++ (record p { hash = sym h.has_sha256 i }) ∷ []) empty_package))

package_loop-packages :
    (ps acc : List Package)
    → All IsPrintable ps
    → package_loop (packages_lines ps) (plain acc empty_package)
      ≡ ok (plain (acc ++ ps) empty_package)
unfolding packages_lines package_loop
package_loop-packages [] acc h = rw append-nil refl
package_loop-packages (p ∷ ps) acc h =
    package_loop-package p acc (packages_lines ps) h.0
    ∙ package_loop-packages ps (acc ++ p ∷ []) h.1
    ∙ ap (λ z. ok (plain z empty_package)) (append_assoc acc (p ∷ []) ps)

package-one : (p : Package) → IsPrintable p → All (λ l. contains l 10 ≡ false) (package_lines p)
unfolding package_lines
package-one p q = (
  field_line _ _ package-IsKey q.name_text,
  (
    field_line _ _ version-IsKey q.version_text,
    (
      field_line _ _ architecture-IsKey q.architecture_text,
      (
        field_line _ _ filename-IsKey q.path_text,
        (
          field_line _ _ sha256-IsKey q.hex_text,
          (field_line _ _ size-IsKey (decimal-IsText p.size), (refl, tt)),
        ),
      ),
    ),
  ),
)

lines-one :
    (ps : List Package) → All IsPrintable ps → All (λ l. contains l 10 ≡ false) (packages_lines ps)
unfolding packages_lines
lines-one [] h = tt
lines-one (p ∷ ps) h =
    let q = h.0 in
    All-append _ (package_lines p) (packages_lines ps) (package-one p q) (lines-one ps h.1)

-- Packages that the format can hold are read back from the index that lists them, in their order.
-- Each must have a name and a SHA256, a size of 64 bits, and texts of valid UTF-8 in one line.
pub parse_packages-print_packages :
    (ps : List Package)
    → All IsPrintable ps
    → parse_packages (record { content = print_packages ps; failure = none }) ≡ ok ps
unfolding parse_packages print_packages
parse_packages-print_packages ps h =
    rw
      (
        lines-unlines (packages_lines ps) (lines-one ps h),
        package_loop-packages ps [] h,
        check_and_add-nothing ps empty_package,
      )
      (unfold finish text-discrete in refl)
