-- ===== src/Debian/Packages/Fields.antt =====
-- One line of a field, as the loop of `parse_packages` of src/debian.rs takes it.
use reposync.Base.{
  ◌≡◌, ◌≢◌, refl, ◌∙◌, true, false, some, List, [], ◌∷◌, ◌++◌, Text, lit, arith, ◌==◌, ℕ_eq,
  text_eq, contains, contains-append, starts_with, split_once, drop_text,
}
use reposync.Base.Outcome.{ok}
use reposync.Base.Parse.{is_utf8}
use reposync.Base.Parse.Lines.{IsText, IsAscii, is_utf8-ascii, skip_first-space}
use reposync.Debian.Packages.{State, check_and_add, keyed, package_line, package_loop}
use reposync.Debian.Packages.Printer.{field}

-- A key of the format: it starts a line and has no colon.
pub record IsKey (k : Text) : Type 0 where
  pub is_ascii : IsAscii k
  pub one_line : contains k 10 ≡ false
  pub no_colon : contains k 58 ≡ false
  pub starts : contains k 32 ≡ false
  pub nonempty : k ≢ []

split_once-colon :
    (k r : Text) → contains k 58 ≡ false → split_once (lit ":") (k ++ (58 ∷ r)) ≡ (k, some r)
unfolding split_once starts_with drop_text lit
split_once-colon [] r h = ground arith
split_once-colon (c ∷ k) r h = ground (arith, split_once-colon k r)

field_starts :
    (k v : Text)
    → IsKey k
    → ((field k v == []) ≡ false) × (starts_with (field k v) (lit " ") ≡ false)
unfolding starts_with lit
field_starts [] v key = absurd (key.nonempty refl)
field_starts (c ∷ k) v key = let h = key.starts in (ground arith, ground arith)

field-is_utf8 : (k v : Text) → IsKey k → IsText v → is_utf8 (field k v) ≡ true
unfolding is_utf8
field-is_utf8 k v key text =
    is_utf8-ascii k (58 ∷ 32 ∷ v) key.is_ascii
    ∙ is_utf8-ascii (58 ∷ 32 ∷ []) v (omega arith, (omega arith, tt))
    ∙ text.valid

pub field_line : (k v : Text) → IsKey k → IsText v → contains (field k v) 10 ≡ false
field_line k v key text =
    let t = text.one_line in contains-append k (58 ∷ 32 ∷ v) 10 ∙ rw key.one_line (ground arith)

-- What is pending is added, and the field is pending then.
pub package_line-field :
    (k v : Text) (ls : List Text) (s s' : State)
    → IsKey k
    → IsText v
    → check_and_add s ≡ ok s'
    → package_loop (field k v ∷ ls) s ≡ package_loop ls (record s' { key = k; value = v })
unfolding package_loop package_line keyed
package_line-field k v ls s s' key text added =
    let (filled, plain) = field_starts k v key in
    rw
      (
        field-is_utf8 k v key text,
        filled,
        plain,
        added,
        split_once-colon k (32 ∷ v) key.no_colon,
        skip_first-space v text.valid,
      )
      refl
