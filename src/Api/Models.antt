-- ===== src/Api/Models.antt =====
-- The form of a `Status` as a query parameter, of src/models.rs of the crate generated/: the names
-- of the fields and their values, with commas between them.
pub mod RoundTrip
use reposync.Base.{
  ℕ, Bool, ◌==◌, ℕ_eq, text_eq, Option, none, some, List, [], ◌∷◌, ◌++◌, Text, lit, if◌then◌else◌,
}
use reposync.Base.Outcome.{Outcome, ok, err, panic, ◌>>=◌}
use reposync.Base.Parse.Signed.{ℤ, print_i64, parse_i64}
use reposync.Server.{Status}

-- `join(",")`
unfoldable pub join : List Text → Text
join [] = []
join (t ∷ []) = t
join (t ∷ u ∷ ts) = t ++ 44 ∷ join (u ∷ ts)

in_front : ℕ → List Text → List Text
in_front c [] = (c ∷ []) ∷ []
in_front c (t ∷ ts) = (c ∷ t) ∷ ts

-- `split(',')`
unfoldable pub split : Text → List Text
unfolding in_front
split [] = [] ∷ []
split (c ∷ s) = let rest = split s in if c == 44 then [] ∷ rest else in_front c rest

-- `impl ToString for Status`
unfoldable pub to_string : Status → Text
unfolding join print_i64 lit
to_string s = join (
    lit "name"
    ∷ s.name
    ∷ lit "status"
    ∷ s.status
    ∷ lit "next_sync"
    ∷ print_i64 s.next_sync
    ∷ lit "last_sync"
    ∷ print_i64 s.last_sync
    ∷ lit "last_result"
    ∷ s.last_result
    ∷ lit "size"
    ∷ print_i64 s.size
    ∷ lit "packages"
    ∷ print_i64 s.packages
    ∷ [])

pub record IntermediateRep : Type 0 where
  pub name : List Text
  pub status : List Text
  pub next_sync : List ℤ
  pub last_sync : List ℤ
  pub last_result : List Text
  pub size : List ℤ
  pub packages : List ℤ

-- `IntermediateRep::default()`
abbrev empty_rep : IntermediateRep
empty_rep = record {
  name = [];
  status = [];
  next_sync = [];
  last_sync = [];
  last_result = [];
  size = [];
  packages = [];
}

parsed : Option ℤ → Outcome Text ℤ
unfolding lit
parsed (some z) = ok z
parsed none = err (lit "invalid integer")

-- The `match` on a key: its value is put behind the values that the key has had.
pushed : Text → Text → IntermediateRep → Outcome Text IntermediateRep
unfolding parsed parse_i64 lit
pushed key val rep =
    if key == lit "name"
    then ok (record rep { name = rep.name ++ val ∷ [] })
    else if key == lit "status"
    then ok (record rep { status = rep.status ++ val ∷ [] })
    else if key == lit "next_sync"
    then (parsed (parse_i64 val) >>= λ z. ok (record rep { next_sync = rep.next_sync ++ z ∷ [] }))
    else if key == lit "last_sync"
    then (parsed (parse_i64 val) >>= λ z. ok (record rep { last_sync = rep.last_sync ++ z ∷ [] }))
    else if key == lit "last_result"
    then ok (record rep { last_result = rep.last_result ++ val ∷ [] })
    else if key == lit "size"
    then (parsed (parse_i64 val) >>= λ z. ok (record rep { size = rep.size ++ z ∷ [] }))
    else if key == lit "packages"
    then (parsed (parse_i64 val) >>= λ z. ok (record rep { packages = rep.packages ++ z ∷ [] }))
    else err (lit "Unexpected key while parsing Status")

-- The loop over the parts, of which two are taken in each turn.
rep_loop : List Text → IntermediateRep → Outcome Text IntermediateRep
unfolding pushed lit
rep_loop [] rep = ok rep
rep_loop (key ∷ []) rep = err (lit "Missing value while parsing Status")
rep_loop (key ∷ val ∷ rest) rep = pushed key val rep >>= λ rep'. rep_loop rest rep'

-- `into_iter().next().ok_or(..)`
first : {A : Type 0} → Text → List A → Outcome Text A
unfolding lit
first field [] = err (field ++ lit " missing in Status")
first field (a ∷ _) = ok a

built : IntermediateRep → Outcome Text Status
unfolding first lit
built rep = do
  name ← first (lit "name") rep.name
  status ← first (lit "status") rep.status
  next_sync ← first (lit "next_sync") rep.next_sync
  last_sync ← first (lit "last_sync") rep.last_sync
  last_result ← first (lit "last_result") rep.last_result
  size ← first (lit "size") rep.size
  packages ← first (lit "packages") rep.packages
  ok (record {
    name = name;
    status = status;
    next_sync = next_sync;
    last_sync = last_sync;
    last_result = last_result;
    size = size;
    packages = packages;
  })

-- `impl FromStr for Status`
unfoldable pub from_str : Text → Outcome Text Status
unfolding rep_loop split built
from_str s = rep_loop (split s) empty_rep >>= built
