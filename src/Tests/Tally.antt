-- ===== src/Tests/Tally.antt =====
-- Statuses as tallies: a number is written as a tally, a text as its numbers with an end.
use reposync.Base.{
  text_eq, ℕ, zero, suc, true, ◌==◌, ℕ_eq, ◌≡◌, refl, sym, ◌∙◌, ap, ◌<◌, Option, none, some, [],
  ◌∷◌, Text, All, arith, if◌then◌else◌, ℕ-discrete,
}
use mathlib.Core.List.{append-nil}
use reposync.Base.Parse.{is_utf8}
use reposync.Base.Parse.Lines.{IsAscii, is_utf8-ascii}
use reposync.Base.Parse.Signed.{ℤ, pos, negsuc}
use reposync.Server.{Status}

tally : ℕ → Text → Text
tally zero s = 98 ∷ s
tally (suc n) s = 97 ∷ tally n s

pub tallies : Text → Text → Text
unfolding tally
tallies [] rest = 99 ∷ rest
tallies (n ∷ t) rest = tally n (tallies t rest)

abbrev pub Read : Type 0
Read = Option (Text × Text)

put : ℕ → Read → Read
put n none = none
put n (some (t, rest)) = some (n ∷ t, rest)

bump : Read → Read
bump (some (n ∷ t, rest)) = some (suc n ∷ t, rest)
bump _ = none

pub read_tallies : Text → Read
unfolding put bump
read_tallies [] = none
read_tallies (c ∷ s) =
    let rest = read_tallies s in
    if c == 97
    then bump rest
    else if c == 98
    then put 0 rest
    else if c == 99
    then some ([], s)
    else none

bump-put : (n : ℕ) (r : Read) → bump (put n r) ≡ put (suc n) r
unfolding bump put
bump-put n none = refl
bump-put n (some (t, rest)) = refl

read-tally : (n : ℕ) (s : Text) → read_tallies (tally n s) ≡ put n (read_tallies s)
unfolding read_tallies tally ℕ-discrete
read-tally zero s = refl
read-tally (suc n) s = ap bump (read-tally n s) ∙ bump-put n (read_tallies s)

pub read-tallies : (t rest : Text) → read_tallies (tallies t rest) ≡ some (t, rest)
unfolding tallies read_tallies put ℕ-discrete
read-tallies [] rest = refl
read-tallies (n ∷ t) rest = read-tally n (tallies t rest) ∙ ap (put n) (read-tallies t rest)

module _ (P : ℕ → Type 0) (a : P 97) (b : P 98) (c : P 99) where
  tally-All : (n : ℕ) (s : Text) → All P s → All P (tally n s)
  unfolding tally
  tally-All zero s h = (b, h)
  tally-All (suc n) s h = (a, tally-All n s h)

  pub tallies-All : (t rest : Text) → All P rest → All P (tallies t rest)
  unfolding tallies
  tallies-All [] rest h = (c, h)
  tallies-All (n ∷ t) rest h = tally-All n (tallies t rest) (tallies-All t rest h)

-- A sign, and then the number that the constructor has.
sign_of : ℤ → ℕ
sign_of (pos n) = 0
sign_of (negsuc n) = 1

size_of : ℤ → ℕ
size_of (pos n) = n
size_of (negsuc n) = n

integer : ℕ → ℕ → ℤ
integer zero n = pos n
integer (suc _) n = negsuc n

integer-parts : (z : ℤ) → integer (sign_of z) (size_of z) ≡ z
unfolding integer sign_of size_of
integer-parts (pos n) = refl
integer-parts (negsuc n) = refl

numbers : Status → Text
unfolding sign_of size_of
numbers s =
    sign_of s.next_sync
    ∷ size_of s.next_sync
    ∷ sign_of s.last_sync
    ∷ size_of s.last_sync
    ∷ sign_of s.size
    ∷ size_of s.size
    ∷ sign_of s.packages
    ∷ size_of s.packages
    ∷ []

pub write_status : Status → Text
unfolding tallies numbers
write_status s = tallies s.name (tallies s.status (tallies s.last_result (tallies (numbers s) [])))

numbers_of : Text → Text → Text → Read → Option Status
unfolding integer
numbers_of name state last_result (some (a ∷ b ∷ c ∷ d ∷ e ∷ f ∷ g ∷ h ∷ [], rest)) = some (record {
  name = name;
  status = state;
  next_sync = integer a b;
  last_sync = integer c d;
  last_result = last_result;
  size = integer e f;
  packages = integer g h;
})
numbers_of name state last_result _ = none

result_of : Text → Text → Read → Option Status
unfolding numbers_of read_tallies
result_of name state none = none
result_of name state (some (t, rest)) = numbers_of name state t (read_tallies rest)

status_of : Text → Read → Option Status
unfolding result_of read_tallies
status_of name none = none
status_of name (some (t, rest)) = result_of name t (read_tallies rest)

name_of : Read → Option Status
unfolding status_of read_tallies
name_of none = none
name_of (some (t, rest)) = status_of t (read_tallies rest)

pub read_status : Text → Option Status
unfolding name_of read_tallies
read_status s = name_of (read_tallies s)

numbers_of-numbers :
    (s : Status) → numbers_of s.name s.status s.last_result (some (numbers s, [])) ≡ some s
unfolding numbers_of numbers
numbers_of-numbers s = λ i. some (record s {
  next_sync = integer-parts s.next_sync i;
  last_sync = integer-parts s.last_sync i;
  size = integer-parts s.size i;
  packages = integer-parts s.packages i;
})

pub read-write : (s : Status) → read_status (write_status s) ≡ some s
unfolding read_status write_status name_of status_of result_of
read-write s =
    ap name_of (read-tallies s.name _)
    ∙ ap (status_of s.name) (read-tallies s.status _)
    ∙ ap (result_of s.name s.status) (read-tallies s.last_result _)
    ∙ ap (numbers_of s.name s.status s.last_result) (read-tallies (numbers s) [])
    ∙ numbers_of-numbers s

pub write_status-is_utf8 : (s : Status) → is_utf8 (write_status s) ≡ true
unfolding write_status is_utf8
write_status-is_utf8 s =
    let ascii : IsAscii (write_status s) =
      all s.name _ (all s.status _ (all s.last_result _ (all (numbers s) [] tt))) in
    ap is_utf8 (sym (append-nil (write_status s))) ∙ is_utf8-ascii (write_status s) [] ascii
  where
    all : (t rest : Text) → IsAscii rest → IsAscii (tallies t rest)
    all = tallies-All (λ c. c < 128) (omega arith) (omega arith) (omega arith)
