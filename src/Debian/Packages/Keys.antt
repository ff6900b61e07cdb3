-- ===== src/Debian/Packages/Keys.antt =====
-- The keys that `check_and_add` of src/debian.rs knows, and what it does with their values.
use reposync.Base.{
  ℕ, ◌<◌, ◌^◌, ◌≡◌, refl, ap, ◌∙◌, Bool, true, not, ◌&&◌, ltb, is_empty, contains, ℕ_eq, some, List,
  [], ◌∷◌, Text, lit, arith, text_eq, text-discrete, ℕ-discrete,
}
use reposync.Base.Outcome.{ok}
use reposync.Base.Parse.{parse_u64, trim}
use reposync.Base.Parse.Lines.{IsAscii}
use reposync.Base.Parse.Decimal.{decimal, parse_u64-decimal, trim-decimal}
use reposync.Packages.{Package, sha256}
use reposync.Debian.Packages.{State, check_and_add}
use reposync.Debian.Packages.Fields.{IsKey}

all_ascii : Text → Bool
all_ascii [] = true
all_ascii (c ∷ s) = ltb c 128 && all_ascii s

IsAscii-of : (k : Text) → all_ascii k ≡ true → IsAscii k
unfolding all_ascii
IsAscii-of [] h = tt
IsAscii-of (c ∷ k) h = (ground arith, IsAscii-of k (ground arith))

-- A test for keys that are written out.
is_key : Text → Bool
unfolding all_ascii
is_key k =
    all_ascii k
    && not (contains k 10)
    && not (contains k 58)
    && not (contains k 32)
    && not (is_empty k)

IsKey-of : (k : Text) → is_key k ≡ true → IsKey k
unfolding is_key
IsKey-of [] h = absurd (ground arith)
IsKey-of (c ∷ k) h = record {
  is_ascii = IsAscii-of (c ∷ k) (ground arith);
  one_line = ground arith;
  no_colon = ground arith;
  starts = ground arith;
  nonempty = λ e. cc;
}

pub package-IsKey : IsKey (lit "Package")
unfolding is_key lit ℕ-discrete
package-IsKey = IsKey-of _ refl

pub version-IsKey : IsKey (lit "Version")
unfolding is_key lit ℕ-discrete
version-IsKey = IsKey-of _ refl

pub architecture-IsKey : IsKey (lit "Architecture")
unfolding is_key lit ℕ-discrete
architecture-IsKey = IsKey-of _ refl

pub filename-IsKey : IsKey (lit "Filename")
unfolding is_key lit ℕ-discrete
filename-IsKey = IsKey-of _ refl

pub sha256-IsKey : IsKey (lit "SHA256")
unfolding is_key lit ℕ-discrete
sha256-IsKey = IsKey-of _ refl

pub size-IsKey : IsKey (lit "Size")
unfolding is_key lit ℕ-discrete
size-IsKey = IsKey-of _ refl

-- The loop has added what it has read to the package.
abbrev pub plain : List Package → Package → State
plain packages p = record { key = []; value = []; packages = packages; current = p }

pub check_and_add-nothing :
    (packages : List Package) (p : Package)
    → check_and_add (plain packages p) ≡ ok (plain packages p)
unfolding check_and_add text-discrete
check_and_add-nothing packages p = refl

module _ (v : Text) (packages : List Package) (p : Package) where
  -- The loop has read a key and a value.
  abbrev pub pending : Text → State
  pending key = record { key = key; value = v; packages = packages; current = p }

  pub check_and_add-package :
      check_and_add (pending (lit "Package")) ≡ ok (plain packages (record p { name = v }))
  unfolding check_and_add lit text-discrete
  check_and_add-package = refl

  pub check_and_add-version :
      check_and_add (pending (lit "Version")) ≡ ok (plain packages (record p { version = v }))
  unfolding check_and_add lit text-discrete
  check_and_add-version = refl

  pub check_and_add-architecture :
      check_and_add (pending (lit "Architecture"))
      ≡ ok (plain packages (record p { architecture = v }))
  unfolding check_and_add lit text-discrete
  check_and_add-architecture = refl

  pub check_and_add-filename :
      check_and_add (pending (lit "Filename")) ≡ ok (plain packages (record p { path = v }))
  unfolding check_and_add lit text-discrete
  check_and_add-filename = refl

  pub check_and_add-sha256 :
      check_and_add (pending (lit "SHA256")) ≡ ok (plain packages (record p { hash = sha256 v }))
  unfolding check_and_add lit text-discrete
  check_and_add-sha256 = refl

size_read : (n : ℕ) → n < 2 ^ 64 → parse_u64 (trim (decimal n)) ≡ some n
size_read n h = ap parse_u64 (trim-decimal n) ∙ parse_u64-decimal n h

pub check_and_add-size :
    (n : ℕ) (packages : List Package) (p : Package)
    → n < 2 ^ 64
    → check_and_add (pending (decimal n) packages p (lit "Size"))
      ≡ ok (plain packages (record p { size = n }))
unfolding check_and_add lit text-discrete
check_and_add-size n packages p h = ground (arith, size_read n h)
