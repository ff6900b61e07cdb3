-- ===== src/Redhat/Xml/Consumed.antt =====
-- The parsers of src/redhat.rs come to an end on every document.
use reposync.Base.{
  ℕ, suc, ◌≢◌, Bool, true, false, Option, none, some, List, [], Text, lit, length, arith, ◌==◌,
  text_eq, if◌then◌else◌,
}
use reposync.Base.Outcome.{Result, ok, err, panic, ◌>>=◌, io_error, invalid_data}
use reposync.Base.Crates.{
  Crates, Reader, XmlEvent, start_element, characters, end_element, other_event, xml_error,
}
use reposync.Base.Parse.{parse_u64}
use reposync.Packages.{Package}
use reposync.Redhat.Xml.{
  Attributes, attribute, location_tag, size_value, size_tag, version_of, package_tag, package_event,
  parse_package, package_element, parse_packages, RepomodData, repomod_tag, repomod_size,
  repomod_text, repomod_event, parse_repomod_data, repomod_element, parse_repomod,
}
use reposync.Redhat.Xml.Loops.{
  IsCalm, IsCalm-bind, IsWithin, inner_loop-IsWithin, IsOptional, outer_loop-IsCalm,
}

location_tag-IsCalm : (attributes : Attributes) (p : Package) → IsCalm (location_tag attributes p)
unfolding location_tag
location_tag-IsCalm attributes p = go (attribute (lit "href") attributes)
  where
    go :
        (o : Option Text)
        → IsCalm (elim o as (λ _. Result Package) [
          | some href ↦ ok (record p { path = href })
          | none ↦ err (io_error invalid_data (lit "missing href from location"))
        ])
    go none = tt
    go (some x) = tt

size_value-IsCalm : (o : Option ℕ) (p : Package) → IsCalm (size_value o p)
unfolding size_value
size_value-IsCalm none p = tt
size_value-IsCalm (some n) p = tt

size_tag-IsCalm : (attributes : Attributes) (p : Package) → IsCalm (size_tag attributes p)
unfolding size_tag
size_tag-IsCalm attributes p = go (attribute (lit "package") attributes)
  where
    go :
        (o : Option Text)
        → IsCalm (elim o as (λ _. Result Package) [
          | some text ↦ size_value (parse_u64 text) p
          | none ↦ err (io_error invalid_data (lit "invalid size tag"))
        ])
    go none = tt
    go (some x) = size_value-IsCalm (parse_u64 x) p

version_of-IsCalm : (a b c : Option Text) (p : Package) → IsCalm (version_of a b c p)
unfolding version_of
version_of-IsCalm none b c p = tt
version_of-IsCalm (some a) none c p = tt
version_of-IsCalm (some a) (some b) none p = tt
version_of-IsCalm (some a) (some b) (some c) p = tt

IsCalm-if :
    {A : Type 0} (b : Bool) (m n : Result A) → IsCalm m → IsCalm n → IsCalm (if b then m else n)
IsCalm-if true m n h k = h
IsCalm-if false m n h k = k

package_tag-IsCalm :
    (name : Text) (attributes : Attributes) (p : Package) → IsCalm (package_tag name attributes p)
unfolding package_tag
package_tag-IsCalm name attributes p =
    IsCalm-if (name == lit "location") _ _ (location_tag-IsCalm attributes p) (
      IsCalm-if (name == lit "size") _ _ (size_tag-IsCalm attributes p)
        (IsCalm-if (name == lit "version") _ _ (version_of-IsCalm _ _ _ p) tt))

package_event-IsCalm : (e : XmlEvent) (s : Package × Text) → IsCalm (package_event e s)
unfolding package_event
package_event-IsCalm (start_element name attributes) (p, last) =
    IsCalm-bind (package_tag name attributes p) _ (package_tag-IsCalm name attributes p) (λ _. tt)
package_event-IsCalm (characters text) (p, last) = tt
package_event-IsCalm (end_element name) s = tt
package_event-IsCalm other_event s = tt
package_event-IsCalm (xml_error message) s = tt

-- An entry that an element starts, once its inner loop has ended.
entry-IsWithin :
    {A B : Type 0} (n : ℕ) (g : A → B) (r : Result (A × List XmlEvent))
    → IsWithin n r
    → IsWithin n (r >>= λ s. ok (g s.0, s.1))
entry-IsWithin n g (ok (a, rest)) h = h
entry-IsWithin n g (err e) h = tt
entry-IsWithin n g panic h = h

IsOptional-if :
    {A : Type 0} (n : ℕ) (b : Bool) (r : Result (A × List XmlEvent))
    → IsWithin n r
    → IsOptional n (if b then some r else none)
IsOptional-if n true r h = h
IsOptional-if n false r h = tt

package_element-IsOptional :
    (name : Text) (attributes : Attributes) (rest : List XmlEvent)
    → IsOptional (length rest) (package_element name attributes rest)
unfolding package_element parse_package
package_element-IsOptional name attributes rest =
    IsOptional-if (length rest) (name == lit "package") _ (
      entry-IsWithin (length rest) (λ s. s.0) _
        (inner_loop-IsWithin package_event package_event-IsCalm rest _))

repomod_tag-IsCalm :
    (name : Text) (attributes : Attributes) (d : RepomodData)
    → IsCalm (repomod_tag name attributes d)
unfolding repomod_tag
repomod_tag-IsCalm name attributes d =
    IsCalm-if (name == lit "location") _ _ (go (attribute (lit "href") attributes)) tt
  where
    go :
        (o : Option Text)
        → IsCalm (elim o as (λ _. Result RepomodData) [
          | some href ↦ ok (record d { location = href })
          | none ↦ err (io_error invalid_data (lit "missing href from location"))
        ])
    go none = tt
    go (some x) = tt

repomod_size-IsCalm : (o : Option ℕ) (d : RepomodData) → IsCalm (repomod_size o d)
unfolding repomod_size
repomod_size-IsCalm none d = tt
repomod_size-IsCalm (some n) d = tt

repomod_text-IsCalm : (last text : Text) (d : RepomodData) → IsCalm (repomod_text last text d)
unfolding repomod_text
repomod_text-IsCalm last text d =
    IsCalm-if (last == lit "checksum") _ _ tt
      (IsCalm-if (last == lit "size") _ _ (repomod_size-IsCalm (parse_u64 text) d) tt)

repomod_event-IsCalm : (e : XmlEvent) (s : RepomodData × Text) → IsCalm (repomod_event e s)
unfolding repomod_event
repomod_event-IsCalm (start_element name attributes) (d, last) =
    IsCalm-bind (repomod_tag name attributes d) _ (repomod_tag-IsCalm name attributes d) (λ _. tt)
repomod_event-IsCalm (characters text) (d, last) =
    IsCalm-bind (repomod_text last text d) _ (repomod_text-IsCalm last text d) (λ _. tt)
repomod_event-IsCalm (end_element name) s = tt
repomod_event-IsCalm other_event s = tt
repomod_event-IsCalm (xml_error message) s = tt

repomod_element-IsOptional :
    (name : Text) (attributes : Attributes) (rest : List XmlEvent)
    → IsOptional (length rest) (repomod_element name attributes rest)
unfolding repomod_element parse_repomod_data
repomod_element-IsOptional name attributes rest =
    IsOptional-if (length rest) (name == lit "data") _ (
      entry-IsWithin (length rest) (λ s. s.0) _
        (inner_loop-IsWithin repomod_event repomod_event-IsCalm rest _))

no-panic : {A : Type 0} (r : Result A) → IsCalm r → r ≢ panic
no-panic (ok a) h = λ e. ground arith
no-panic (err x) h = λ e. ground arith
no-panic panic h = λ e. h

module _ ⦃lib : Crates⦄ where
  -- Both parsers end with a list or an error, whatever the events of the document are: the fuel of
  -- the model is enough, and no event is a panic.
  pub parse_packages-parse_repomod :
      (source : Reader) → (parse_packages source ≢ panic) × (parse_repomod source ≢ panic)
  unfolding parse_packages parse_repomod
  parse_packages-parse_repomod source =
      let events = lib.xml_events source in
      (
        no-panic _ (
            outer_loop-IsCalm package_element package_element-IsOptional (suc (length events))
              events [] (omega arith)),
        no-panic _ (
            outer_loop-IsCalm repomod_element repomod_element-IsOptional (suc (length events))
              events [] (omega arith)),
      )
