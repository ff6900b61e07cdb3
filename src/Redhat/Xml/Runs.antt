-- ===== src/Redhat/Xml/Runs.antt =====
-- What `parse_package` of src/redhat.rs reads of the elements of a package.
use reposync.Base.{
  ◌≡◌, refl, ◌∙◌, ap, Bool, false, List, [], ◌∷◌, ◌++◌, Text, lit, All, arith, ◌==◌, text_eq,
  text-discrete, ℕ-discrete, if◌then◌else◌,
}
use reposync.Base.Outcome.{Result, ok, ◌>>=◌}
use reposync.Base.Crates.{XmlEvent, start_element, characters, end_element, other_event, xml_error}
use reposync.Base.Parse.Decimal.{decimal, parse_u64-decimal}
use reposync.Packages.{Package, empty_package}
use reposync.Redhat.Xml.{
  Attributes, go_on, stop, attribute, location_tag, size_value, size_tag, version_of, package_tag,
  package_text, package_event, inner_loop, parse_package,
}
use reposync.Redhat.Xml.Elements.{
  Element, name_element, arch_element, version_element, checksum_element, size_element,
  location_element, extra_element, space, is_read, IsExtra, IsElement, element_events,
  elements_events, with_element, with_elements,
}

abbrev run : List XmlEvent → Package × Text → Result ((Package × Text) × List XmlEvent)
run = inner_loop package_event

step-run :
    (e : XmlEvent) (rest : List XmlEvent) (s s' : Package × Text)
    → package_event e s ≡ ok (go_on s')
    → run (e ∷ rest) s ≡ run rest s'
unfolding inner_loop
step-run e rest s s' h = rw (inner_loop, h) refl

start-run :
    (name : Text) (attributes : Attributes) (rest : List XmlEvent) (p p' : Package) (last : Text)
    → package_tag name attributes p ≡ ok p'
    → run (start_element name attributes ∷ rest) (p, last) ≡ run rest (p', name)
unfolding package_event
start-run name attributes rest p p' last h =
    step-run (start_element name attributes) rest (p, last) (p', name)
      (ap (λ (z : Result Package). z >>= λ q. ok (go_on (q, name))) h)

end-run :
    (name : Text) (rest : List XmlEvent) (s : Package × Text)
    → (name == lit "package") ≡ false
    → run (end_element name ∷ rest) s ≡ run rest s
unfolding package_event
end-run name rest s h =
    step-run (end_element name) rest s s (ap (λ (b : Bool). ok (if b then stop s else go_on s)) h)

package_tag-extra :
    (name : Text) (attributes : Attributes) (p : Package)
    → is_read name ≡ false
    → package_tag name attributes p ≡ ok p
unfolding package_tag is_read
package_tag-extra name attributes p h = ground (arith, h)

package_text-extra :
    (last text : Text) (p : Package) → is_read last ≡ false → package_text last text p ≡ p
unfolding package_text is_read
package_text-extra last text p h = ground (arith, h)

-- The events of an element that is not read change the last tag at most.
extra-run :
    (inside rest : List XmlEvent) (p : Package) (last : Text)
    → is_read last ≡ false
    → All IsExtra inside
    → (last' : Text) × (run (inside ++ rest) (p, last) ≡ run rest (p, last'))
unfolding inner_loop package_event
extra-run [] rest p last h a = (last, refl)
extra-run (start_element name attributes ∷ inside) rest p last h (e, a) =
    let (last', q) = extra-run inside rest p name e a in
    (
      last',
      start-run name attributes (inside ++ rest) p p last (package_tag-extra name attributes p e)
          ∙ q,
    )
extra-run (characters text ∷ inside) rest p last h (_, a) =
    let (last', q) = extra-run inside rest p last h a in
    (last', ap (λ z. run (inside ++ rest) (z, last)) (package_text-extra last text p h) ∙ q)
extra-run (end_element name ∷ inside) rest p last h (e, a) =
    let (last', q) = extra-run inside rest p last h a in
    (last', end-run name (inside ++ rest) (p, last) e ∙ q)
extra-run (other_event ∷ inside) rest p last h (_, a) = extra-run inside rest p last h a
extra-run (xml_error message ∷ inside) rest p last h (e, a) = absurd e

element-run :
    (e : Element) (rest : List XmlEvent) (p : Package) (last : Text)
    → IsElement e
    → (last' : Text) × (run (element_events e rest) (p, last) ≡ run rest (with_element e p, last'))
unfolding element_events with_element inner_loop package_event package_tag package_text location_tag
    size_tag size_value version_of attribute lit text-discrete ℕ-discrete
element-run (name_element text) rest p last h = (lit "name", refl)
element-run (arch_element text) rest p last h = (lit "arch", refl)
element-run (version_element epoch ver rel) rest p last h = (lit "version", refl)
element-run (checksum_element attributes text) rest p last h = (lit "checksum", refl)
element-run (size_element n installed archive) rest p last h = (
  lit "size",
  start-run (lit "size")
      ((lit "package", decimal n) ∷ (lit "installed", installed) ∷ (lit "archive", archive) ∷ [])
      (end_element (lit "size") ∷ rest) p (record p { size = n }) last
      (ap (λ z. size_value z p) (parse_u64-decimal n h)),
)
element-run (location_element href) rest p last h = (lit "location", refl)
element-run (extra_element name attributes inside) rest p last (e, not_package, a) =
    let (last', q) = extra-run inside (end_element name ∷ rest) p name e a in
    (
      last',
      start-run name attributes (inside ++ end_element name ∷ rest) p p last
            (package_tag-extra name attributes p e)
          ∙ q
          ∙ end-run name rest (p, last') not_package,
    )
element-run space rest p last h = (last, refl)

elements-run :
    (es : List Element) (rest : List XmlEvent) (p : Package) (last : Text)
    → All IsElement es
    → (last' : Text) × (run (elements_events es rest) (p, last)
        ≡ run rest (with_elements es p, last'))
unfolding elements_events with_elements
elements-run [] rest p last h = (last, refl)
elements-run (e ∷ es) rest p last (h, hs) =
    let (tag, q) = element-run e (elements_events es rest) p last h in
    let (last', q') = elements-run es rest (with_element e p) tag hs in (last', q ∙ q')

-- A package is read with all its elements, up to its end.
pub parse_package-elements :
    (es : List Element) (rest : List XmlEvent)
    → All IsElement es
    → parse_package (elements_events es (end_element (lit "package") ∷ rest))
      ≡ ok (with_elements es empty_package, rest)
unfolding parse_package inner_loop package_event lit text-discrete ℕ-discrete
parse_package-elements es rest h =
    let (last, q) =
      elements-run es (end_element (lit "package") ∷ rest) empty_package (lit "data") h in
    rw q refl
