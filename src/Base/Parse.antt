-- ===== src/Base/Parse.antt =====
-- The parts of the standard library that the parsers use on texts: lines, UTF-8, numbers, `split`
-- and `trim`. `trim` is modelled at the white space of ASCII.
pub mod Decimal
pub mod Signed
pub mod Lines
use reposync.Base.{
  ℕ, zero, suc, ◌+◌, ◌-◌, ◌*◌, ◌^◌, Bool, true, false, ◌&&◌, ◌||◌, Option, none, some, List, [],
  ◌∷◌, ◌++◌, Text, ◌==◌, ℕ_eq, text_eq, leb, ltb, if◌then◌else◌,
}
use mathlib.Core.List.{reverse}
use reposync.Base.Outcome.{Result, ok, panic}

cons_line : ℕ → List Text × Text → List Text × Text
cons_line c ([], last) = ([], c ∷ last)
cons_line c (l ∷ ls, last) = ((c ∷ l) ∷ ls, last)

-- The lines that `read_until(b'\n', ..)` gives, without their line break, and what is left at the
-- end with none.
unfoldable pub split_lines : Text → List Text × Text
unfolding cons_line
split_lines [] = ([], [])
split_lines (c ∷ s) =
    let rest = split_lines s in if c == 10 then ([] ∷ rest.0, rest.1) else cons_line c rest

-- A last line that is not empty counts too.
with_last : List Text × Text → List Text
with_last (ls, []) = ls
with_last (ls, c ∷ s) = ls ++ (c ∷ s) ∷ []

unfoldable pub lines : Text → List Text
unfolding split_lines with_last
lines s = with_last (split_lines s)

-- `String::from_utf8` is `Ok`: `n` bytes more belong to this character, the next one in a range.
utf8_from : ℕ → ℕ → ℕ → Text → Bool
utf8_from zero lo hi [] = true
utf8_from (suc n) lo hi [] = false
utf8_from (suc n) lo hi (c ∷ s) = leb lo c && leb c hi && utf8_from n 0x80 0xbf s
utf8_from zero lo hi (c ∷ s) =
    let plain = utf8_from 0 0 0 s in
    let two = utf8_from 1 0x80 0xbf s in
    let three =
      utf8_from 2 (if c == 0xe0 then 0xa0 else 0x80) (if c == 0xed then 0x9f else 0xbf) s in
    let four =
      utf8_from 3 (if c == 0xf0 then 0x90 else 0x80) (if c == 0xf4 then 0x8f else 0xbf) s in
    if ltb c 0x80
    then plain
    else if leb 0xc2 c && leb c 0xdf
    then two
    else if leb 0xe0 c && leb c 0xef
    then three
    else leb 0xf0 c && leb c 0xf4 && four

unfoldable pub is_utf8 : Text → Bool
unfolding utf8_from
is_utf8 s = utf8_from 0 0 0 s

pub is_digit : ℕ → Bool
is_digit c = leb b'0' c && leb c b'9'

digits : ℕ → Text → Option ℕ
unfolding is_digit
digits n [] = some n
digits n (c ∷ s) = let rest = digits (n * 10 + (c - b'0')) s in if is_digit c then rest else none

pub digits_some : Text → Option ℕ
unfolding digits
digits_some [] = none
digits_some (c ∷ s) = digits 0 (c ∷ s)

-- `from_str` of an unsigned integer of 64 bits: a sign `+` may stand first.
unfoldable pub parse_u64 : Text → Option ℕ
unfolding digits_some
parse_u64 [] = none
parse_u64 (c ∷ s) = elim (if c == b'+' then digits_some s else digits_some (c ∷ s)) [
  | some n ↦ if ltb n (2 ^ 64) then some n else none
  | none ↦ none
]

is_space : ℕ → Bool
is_space c = c == 32 || (leb 9 c && leb c 13)

trim_start : Text → Text
unfolding is_space
trim_start [] = []
trim_start (c ∷ s) = let rest = trim_start s in if is_space c then rest else c ∷ s

unfoldable pub trim : Text → Text
unfolding trim_start
trim s = reverse (trim_start (reverse (trim_start s)))

cons_word : ℕ → List Text → List Text
cons_word c [] = (c ∷ []) ∷ []
cons_word c (w ∷ ws) = (c ∷ w) ∷ ws

-- `split(" ")`
unfoldable pub split_spaces : Text → List Text
unfolding cons_word
split_spaces [] = [] ∷ []
split_spaces (c ∷ s) = let rest = split_spaces s in if c == 32 then [] ∷ rest else cons_word c rest

-- `[1..]`, which panics inside a character.
unfoldable pub skip_first : Text → Result Text
skip_first [] = panic
skip_first (c ∷ []) = ok []
skip_first (c ∷ d ∷ s) = if leb 0x80 d && leb d 0xbf then panic else ok (d ∷ s)
