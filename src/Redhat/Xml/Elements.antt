-- ===== src/Redhat/Xml/Elements.antt =====
-- The documents that src/redhat.rs reads, as the elements of a package, and as the events that an
-- XML reader makes of them.
use reposync.Base.{
  ℕ, ◌^◌, ◌<◌, ◌≡◌, Bool, false, ◌||◌, List, [], ◌∷◌, ◌++◌, Text, lit, All, ◌==◌, text_eq,
}
use reposync.Base.Crates.{XmlEvent, start_element, characters, end_element, other_event, xml_error}
use reposync.Base.Parse.Decimal.{decimal}
use reposync.Packages.{Package, sha1}
use reposync.Redhat.Xml.{Attributes}

-- What stands in a `package`: an element that is read, another one with what stands in it, or space.
pub data Element : Type 0 where
  name_element : Text → Element
  arch_element : Text → Element
  version_element : Text → Text → Text → Element
  checksum_element : Attributes → Text → Element
  size_element : ℕ → Text → Text → Element
  location_element : Text → Element
  extra_element : Text → Attributes → List XmlEvent → Element
  space : Element

-- The names of the elements that are read.
unfoldable pub is_read : Text → Bool
unfolding lit
is_read name =
    name == lit "location"
    || name == lit "size"
    || name == lit "version"
    || name == lit "name"
    || name == lit "arch"
    || name == lit "checksum"

-- An event of an element that is not read.
abbrev pub IsExtra : XmlEvent → Type 0
IsExtra (start_element name attributes) = is_read name ≡ false
IsExtra (characters text) = Unit
IsExtra (end_element name) = (name == lit "package") ≡ false
IsExtra other_event = Unit
IsExtra (xml_error message) = ⊥

-- A size has 64 bits, and an element that is not read has no other one in it that is.
abbrev pub IsElement : Element → Type 0
IsElement (size_element n installed archive) = n < 2 ^ 64
IsElement (extra_element name attributes inside) =
    (is_read name ≡ false) × ((name == lit "package") ≡ false) × All IsExtra inside
IsElement _ = Unit

-- The events of an element, and then the rest.
unfoldable pub element_events : Element → List XmlEvent → List XmlEvent
unfolding lit
element_events (name_element text) rest =
    start_element (lit "name") [] ∷ characters text ∷ end_element (lit "name") ∷ rest
element_events (arch_element text) rest =
    start_element (lit "arch") [] ∷ characters text ∷ end_element (lit "arch") ∷ rest
element_events (version_element epoch ver rel) rest =
    start_element (lit "version") ((lit "epoch", epoch) ∷ (lit "ver", ver) ∷ (lit "rel", rel) ∷ [])
    ∷ end_element (lit "version")
    ∷ rest
element_events (checksum_element attributes text) rest =
    start_element (lit "checksum") attributes
    ∷ characters text
    ∷ end_element (lit "checksum")
    ∷ rest
element_events (size_element n installed archive) rest =
    start_element (lit "size")
      ((lit "package", decimal n) ∷ (lit "installed", installed) ∷ (lit "archive", archive) ∷ [])
    ∷ end_element (lit "size")
    ∷ rest
element_events (location_element href) rest =
    start_element (lit "location") ((lit "href", href) ∷ []) ∷ end_element (lit "location") ∷ rest
element_events (extra_element name attributes inside) rest =
    start_element name attributes ∷ inside ++ end_element name ∷ rest
element_events space rest = other_event ∷ rest

unfoldable pub elements_events : List Element → List XmlEvent → List XmlEvent
unfolding element_events
elements_events [] rest = rest
elements_events (e ∷ es) rest = element_events e (elements_events es rest)

-- The packages of a list, each with its attributes, with space between them.
unfoldable pub packages_events : List (Attributes × List Element) → List XmlEvent
unfolding elements_events lit
packages_events [] = other_event ∷ end_element (lit "metadata") ∷ []
packages_events ((attributes, es) ∷ ps) =
    other_event
    ∷ start_element (lit "package") attributes
    ∷ elements_events es (end_element (lit "package") ∷ packages_events ps)

-- The document of a list of packages.
unfoldable pub document_events : Attributes → List (Attributes × List Element) → List XmlEvent
unfolding packages_events lit
document_events attributes ps =
    other_event ∷ start_element (lit "metadata") attributes ∷ packages_events ps

-- What an element says of its package: the last one of a kind counts.
unfoldable pub with_element : Element → Package → Package
unfolding lit
with_element (name_element text) p = record p { name = text }
with_element (arch_element text) p = record p { architecture = text }
with_element (version_element epoch ver rel) p = record p {
  version = ver ++ lit "-" ++ rel ++ lit "-" ++ epoch;
}
with_element (checksum_element attributes text) p = record p { hash = sha1 text }
with_element (size_element n installed archive) p = record p { size = n }
with_element (location_element href) p = record p { path = href }
with_element (extra_element name attributes inside) p = p
with_element space p = p

unfoldable pub with_elements : List Element → Package → Package
unfolding with_element
with_elements [] p = p
with_elements (e ∷ es) p = with_elements es (with_element e p)
