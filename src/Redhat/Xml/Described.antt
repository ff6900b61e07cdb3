-- ===== src/Redhat/Xml/Described.antt =====
-- What `parse_packages` of src/redhat.rs reads of a list of packages.
use mathlib.Core.List.{append-nil, append_assoc}
use reposync.Base.{
  ℕ, zero, suc, ◌<◌, ◌≤◌, ◌≡◌, sym, ◌∙◌, ap, List, [], ◌∷◌, ◌++◌, lit, length, length-append, map,
  All, arith, text_eq, text-discrete, ℕ-discrete,
}
use reposync.Base.Outcome.{Result, ok, err, panic}
use reposync.Base.Crates.{Crates, Reader, XmlEvent, start_element, end_element}
use reposync.Packages.{Package, empty_package}
use reposync.Redhat.Xml.{Attributes, outer_loop, parse_package, package_element, parse_packages}
use reposync.Redhat.Xml.Elements.{
  Element, name_element, arch_element, version_element, checksum_element, size_element,
  location_element, extra_element, space, IsElement, element_events, elements_events,
  packages_events, document_events, with_elements,
}
use reposync.Redhat.Xml.Runs.{parse_package-elements}

element_events-length :
    (e : Element) (rest : List XmlEvent) → length rest ≤ length (element_events e rest)
unfolding element_events
element_events-length (name_element text) rest = omega arith
element_events-length (arch_element text) rest = omega arith
element_events-length (version_element epoch ver rel) rest = omega arith
element_events-length (checksum_element attributes text) rest = omega arith
element_events-length (size_element n installed archive) rest = omega arith
element_events-length (location_element href) rest = omega arith
element_events-length (extra_element name attributes inside) rest =
    omega (arith, length-append inside (end_element name ∷ rest))
element_events-length space rest = omega arith

elements_events-length :
    (es : List Element) (rest : List XmlEvent) → length rest ≤ length (elements_events es rest)
unfolding elements_events
elements_events-length [] rest = omega arith
elements_events-length (e ∷ es) rest =
    omega (arith, elements_events-length es rest, element_events-length e (elements_events es rest))

abbrev pub AreElements : Attributes × List Element → Type 0
AreElements (attributes, es) = All IsElement es

abbrev pub package_of : Attributes × List Element → Package
package_of (attributes, es) = with_elements es empty_package

entry-run :
    (n : ℕ) (attributes : Attributes) (rest rest' : List XmlEvent) (acc : List Package)
    (p : Package)
    → parse_package rest ≡ ok (p, rest')
    → outer_loop package_element (suc n) (start_element (lit "package") attributes ∷ rest) acc
      ≡ outer_loop package_element n rest' (acc ++ p ∷ [])
unfolding outer_loop package_element lit text-discrete ℕ-discrete
entry-run n attributes rest rest' acc p h =
    ap
      (λ (z : Result (Package × List XmlEvent)). elim z as (λ _. Result (List Package)) [
        | ok (entry, events) ↦ outer_loop package_element n events (acc ++ entry ∷ [])
        | err x ↦ err x
        | panic ↦ panic
      ])
      h

packages-run :
    (ps : List (Attributes × List Element)) (n : ℕ) (acc : List Package)
    → length (packages_events ps) < n
    → All AreElements ps
    → outer_loop package_element n (packages_events ps) acc ≡ ok (acc ++ map package_of ps)
unfolding packages_events outer_loop
packages-run [] zero acc h a = absurd (omega arith)
packages-run [] (suc zero) acc h a = absurd (omega arith)
packages-run [] (suc (suc zero)) acc h a = absurd (omega arith)
packages-run [] (suc (suc (suc n))) acc h a = ap ok (sym (append-nil acc))
packages-run (p ∷ ps) zero acc h a = absurd (omega arith)
packages-run (p ∷ ps) (suc zero) acc h a = absurd (omega arith)
packages-run ((attributes, es) ∷ ps) (suc (suc n)) acc h (a, as_) =
    let end = end_element (lit "package") ∷ packages_events ps in
    entry-run n attributes (elements_events es end) (packages_events ps) acc
      (with_elements es empty_package) (parse_package-elements es (packages_events ps) a)
    ∙ packages-run ps n (acc ++ with_elements es empty_package ∷ [])
        (omega (arith, elements_events-length es end)) as_
    ∙ ap ok (append_assoc acc (with_elements es empty_package ∷ []) (map package_of ps))

module _ ⦃lib : Crates⦄ where
  -- The packages of a document are read in their order, each as its elements say, whatever their
  -- order, the space between them and the elements that are not read.
  pub parse_packages-document_events :
      (attributes : Attributes) (ps : List (Attributes × List Element)) (source : Reader)
      → lib.xml_events source ≡ document_events attributes ps
      → All AreElements ps
      → parse_packages source ≡ ok (map package_of ps)
  unfolding parse_packages document_events outer_loop package_element lit text-discrete ℕ-discrete
  parse_packages-document_events attributes ps source e h =
      rw e (packages-run ps (suc (length (packages_events ps))) [] (omega arith) h)
