-- ===== src/Redhat/Xml.antt =====
-- The XML parsers of src/redhat.rs, over the events of the reader.
pub mod Loops
pub mod Consumed
pub mod Elements
pub mod Runs
pub mod Described
use reposync.Base.{
  ℕ, zero, suc, Bool, true, false, Option, none, some, List, [], ◌∷◌, ◌++◌, Text, lit, length, find,
  ◌==◌, text_eq, if◌then◌else◌, unwrap_or,
}
use reposync.Base.Outcome.{Result, ok, err, panic, ◌>>=◌, ◌>>◌, io_error, invalid_data}
use reposync.Base.Crates.{
  Crates, Reader, XmlEvent, start_element, characters, end_element, other_event, xml_error,
}
use reposync.Base.Parse.{parse_u64}
use reposync.Packages.{Package, Hash, sha1, no_hash, empty_package}

abbrev pub Attributes : Type 0
Attributes = List (Text × Text)

-- `attributes.iter().find(|x| x.name.local_name == name)`, and its value.
unfoldable pub attribute : Text → Attributes → Option Text
attribute name [] = none
attribute name ((k, v) ∷ rest) = if k == name then some v else attribute name rest

-- What a turn of an inner loop decides.
pub data Turn {ℓ} (A : Type ℓ) : Type ℓ where
  go_on : A → Turn A
  stop : A → Turn A

abbrev invalid : {A : Type 0} → Text → Result A
invalid message = err (io_error invalid_data message)

location_tag : Attributes → Package → Result Package
location_tag attributes p = elim (attribute (lit "href") attributes) [
  | some href ↦ ok (record p { path = href })
  | none ↦ invalid (lit "missing href from location")
]

size_value : Option ℕ → Package → Result Package
size_value (some n) p = ok (record p { size = n })
size_value none p = invalid (lit "invalid size: ")

size_tag : Attributes → Package → Result Package
unfolding size_value
size_tag attributes p = elim (attribute (lit "package") attributes) [
  | some text ↦ size_value (parse_u64 text) p
  | none ↦ invalid (lit "invalid size tag")
]

version_of : Option Text → Option Text → Option Text → Package → Result Package
version_of (some epoch) (some ver) (some rel) p =
    ok (record p { version = ver ++ lit "-" ++ rel ++ lit "-" ++ epoch })
version_of _ _ _ p = invalid (lit "invalid version tag")

-- The `match` on the name of an element that starts.
package_tag : Text → Attributes → Package → Result Package
unfolding location_tag size_tag version_of
package_tag name attributes p =
    if name == lit "location"
    then location_tag attributes p
    else if name == lit "size"
    then size_tag attributes p
    else if name == lit "version"
    then version_of (attribute (lit "epoch") attributes) (attribute (lit "ver") attributes)
        (attribute (lit "rel") attributes) p
    else ok p

package_text : Text → Text → Package → Package
package_text last_tag text p =
    if last_tag == lit "name"
    then record p { name = text }
    else if last_tag == lit "arch"
    then record p { architecture = text }
    else if last_tag == lit "checksum"
    then record p { hash = sha1 text }
    else p

-- One turn of the loop of `parse_package`, over the package and the last tag.
package_event : XmlEvent → Package × Text → Result (Turn (Package × Text))
unfolding package_tag package_text
package_event (start_element name attributes) (p, last_tag) = do
  p' ← package_tag name attributes p
  ok (go_on (p', name))
package_event (characters text) (p, last_tag) = ok (go_on (package_text last_tag text p, last_tag))
package_event (end_element name) s = ok (if name == lit "package" then stop s else go_on s)
package_event other_event s = ok (go_on s)
package_event (xml_error message) s = invalid (lit "invalid xml " ++ message)

-- The inner loops: the value at the end, and the events that are left for the caller.
pub inner_loop :
    {A : Type 0} → (XmlEvent → A → Result (Turn A)) → List XmlEvent → A → Result (A × List XmlEvent)
inner_loop turn [] a = ok (a, [])
inner_loop turn (e ∷ rest) a = elim (turn e a) [
  | ok (go_on a') ↦ inner_loop turn rest a'
  | ok (stop a') ↦ ok (a', rest)
  | err x ↦ err x
  | panic ↦ panic
]

-- `parse_package`
unfoldable pub parse_package : List XmlEvent → Result (Package × List XmlEvent)
unfolding inner_loop package_event
parse_package events = do
  (s, rest) ← inner_loop package_event events (empty_package, lit "data")
  ok (s.0, rest)

-- The outer loops: `element` says which elements start an entry, and how it is parsed.
pub outer_loop :
    {A : Type 0}
    → (Text → Attributes → List XmlEvent → Option (Result (A × List XmlEvent)))
    → ℕ
    → List XmlEvent
    → List A
    → Result (List A)
outer_loop element zero events entries = panic
outer_loop element (suc n) [] entries = ok entries
outer_loop element (suc n) (start_element name attributes ∷ rest) entries =
    elim (element name attributes rest) [
      | none ↦ outer_loop element n rest entries
      | some (ok (entry, rest')) ↦ outer_loop element n rest' (entries ++ entry ∷ [])
      | some (err x) ↦ err x
      | some panic ↦ panic
    ]
outer_loop element (suc n) (xml_error message ∷ rest) entries =
    invalid (lit "invalid xml " ++ message)
outer_loop element (suc n) (_ ∷ rest) entries = outer_loop element n rest entries

package_element : Text → Attributes → List XmlEvent → Option (Result (Package × List XmlEvent))
unfolding parse_package
package_element name attributes rest =
    if name == lit "package" then some (parse_package rest) else none

module _ ⦃lib : Crates⦄ where
  -- `parse_packages`: the loop ends with the events, of which each turn takes one at least.
  unfoldable pub parse_packages : Reader → Result (List Package)
  unfolding outer_loop package_element
  parse_packages source =
      let events = lib.xml_events source in
      outer_loop package_element (suc (length events)) events []

-- `struct RepomodData`
pub record RepomodData : Type 0 where
  pub type_ : Text
  pub location : Text
  pub hash : Hash
  pub size : ℕ

repomod_tag : Text → Attributes → RepomodData → Result RepomodData
repomod_tag name attributes d =
    if name == lit "location"
    then elim (attribute (lit "href") attributes) [
      | some href ↦ ok (record d { location = href })
      | none ↦ invalid (lit "missing href from location")
    ]
    else ok d

repomod_size : Option ℕ → RepomodData → Result RepomodData
repomod_size (some n) d = ok (record d { size = n })
repomod_size none d = invalid (lit "invalid size: ")

repomod_text : Text → Text → RepomodData → Result RepomodData
unfolding repomod_size
repomod_text last_tag text d =
    if last_tag == lit "checksum"
    then ok (record d { hash = sha1 text })
    else if last_tag == lit "size"
    then repomod_size (parse_u64 text) d
    else ok d

-- One turn of the loop of `parse_repomod_data`.
repomod_event : XmlEvent → RepomodData × Text → Result (Turn (RepomodData × Text))
unfolding repomod_tag repomod_text
repomod_event (start_element name attributes) (d, last_tag) = do
  d' ← repomod_tag name attributes d
  ok (go_on (d', name))
repomod_event (characters text) (d, last_tag) = do
  d' ← repomod_text last_tag text d
  ok (go_on (d', last_tag))
repomod_event (end_element name) s = ok (if name == lit "data" then stop s else go_on s)
repomod_event other_event s = ok (go_on s)
repomod_event (xml_error message) s = invalid (lit "invalid xml " ++ message)

-- `parse_repomod_data`
unfoldable pub parse_repomod_data : Text → List XmlEvent → Result (RepomodData × List XmlEvent)
unfolding inner_loop repomod_event
parse_repomod_data type_ events = do
  let first : RepomodData = record { type_ = type_; location = []; hash = no_hash; size = 0 }
  (s, rest) ← inner_loop repomod_event events (first, lit "data")
  ok (s.0, rest)

repomod_element : Text → Attributes → List XmlEvent → Option (Result (RepomodData × List XmlEvent))
unfolding parse_repomod_data
repomod_element name attributes rest =
    if name == lit "data"
    then some
        (parse_repomod_data (unwrap_or (attribute (lit "type") attributes) (lit "unknown")) rest)
    else none

module _ ⦃lib : Crates⦄ where
  -- `parse_repomod`
  unfoldable pub parse_repomod : Reader → Result (List RepomodData)
  unfolding outer_loop repomod_element
  parse_repomod source =
      let events = lib.xml_events source in
      outer_loop repomod_element (suc (length events)) events []
