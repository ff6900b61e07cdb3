-- ===== src/Tests/Indexes.antt =====
-- Indexes that are printed and parsed, at sample data.
use reposync.Base.{◌≡◌, refl, none, List, lit, text-discrete, [], ◌∷◌, arith, ℕ-discrete}
use reposync.Base.Outcome.{ok}
use reposync.Base.Crates.{Crates, Reader, start_element, characters}
use reposync.Tests.Data.{sample_crates}
use reposync.Redhat.Xml as Redhat
use reposync.Redhat.Xml.{Attributes}
use reposync.Redhat.Xml.Elements.{
  Element, space, location_element, name_element, extra_element, version_element, checksum_element,
  size_element, is_read, document_events,
}
use reposync.Redhat.Xml.Described.{AreElements, package_of, parse_packages-document_events}
use reposync.Base.Parse.{is_utf8}
use reposync.Packages.{Package, sha256}
use reposync.Debian.Packages.{parse_packages}
use reposync.Debian.Packages.Printer.{print_packages, IsPrintable}
use reposync.Debian.Packages.RoundTrip.{parse_packages-print_packages}

-- A name, a version with a letter of two bytes, and no architecture.
abbrev agent : Package
agent = record {
  name = 97 ∷ 103 ∷ [];
  version = 49 ∷ 46 ∷ 0xc3 ∷ 0xa9 ∷ [];
  architecture = [];
  path = 112 ∷ 47 ∷ 97 ∷ [];
  hash = sha256 (57 ∷ 101 ∷ []);
  size = 1075;
}

agent-IsPrintable : IsPrintable agent
unfolding is_utf8 ℕ-discrete
agent-IsPrintable = record {
  named = λ e. cc;
  name_text = record { valid = refl; one_line = refl };
  version_text = record { valid = refl; one_line = refl };
  architecture_text = record { valid = refl; one_line = refl };
  path_text = record { valid = refl; one_line = refl };
  hex_text = record { valid = refl; one_line = refl };
  has_sha256 = refl;
  fits = omega arith;
}

parse_packages-print_packages_example :
    parse_packages (record { content = print_packages (agent ∷ agent ∷ []); failure = none })
    ≡ ok (agent ∷ agent ∷ [])
parse_packages-print_packages_example =
    parse_packages-print_packages (agent ∷ agent ∷ []) (agent-IsPrintable, (agent-IsPrintable, tt))

-- A package of a RedHat list, with an element that is not read.
abbrev server : Attributes × List Element
server = (
  [],
  space
      ∷ location_element (112 ∷ 47 ∷ 97 ∷ [])
      ∷ name_element (97 ∷ 103 ∷ [])
      ∷ extra_element (102 ∷ []) [] (start_element (101 ∷ []) [] ∷ characters (120 ∷ []) ∷ [])
      ∷ version_element (48 ∷ []) (49 ∷ []) (50 ∷ [])
      ∷ checksum_element [] (57 ∷ [])
      ∷ size_element 1075 [] []
      ∷ [],
)

-- The reader gives the events of two such packages.
abbrev redhat_crates : Crates
redhat_crates = record sample_crates { xml_events = λ r. document_events [] (server ∷ server ∷ []) }

abbrev any_source : Reader
any_source = record { content = []; failure = none }

server-AreElements : AreElements server
unfolding is_read lit text-discrete ℕ-discrete
server-AreElements =
    (tt, (tt, (tt, ((refl, refl, (refl, (tt, tt))), (tt, (tt, (omega arith, tt)))))))

parse_packages-document_events_example :
    Redhat.parse_packages ⦃lib = redhat_crates⦄ any_source
    ≡ ok (package_of server ∷ package_of server ∷ [])
parse_packages-document_events_example =
    parse_packages-document_events ⦃lib = redhat_crates⦄ [] (server ∷ server ∷ []) any_source refl
      (server-AreElements, (server-AreElements, tt))
