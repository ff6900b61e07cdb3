-- ===== src/Base/Parse/Lines.antt =====
-- Laws of lines and of UTF-8, for texts without a line break.
use mathlib.Core.List.{append-nil}
use reposync.Base.{
  ℕ, ◌<◌, ◌≡◌, refl, sym, ◌∙◌, ap, true, false, List, [], ◌∷◌, ◌++◌, Text, arith, ◌==◌, ℕ_eq, ltb,
  All, All-map, contains,
}
use reposync.Base.Outcome.{ok}
use reposync.Base.Parse.{
  cons_line, split_lines, with_last, lines, utf8_from, is_utf8, skip_first, is_digit,
}
use reposync.Base.Parse.Decimal.{decimal, AreDigits, decimal-AreDigits}

-- A text that stands in one line of a file.
pub record IsText (s : Text) : Type 0 where
  pub valid : is_utf8 s ≡ true
  pub one_line : contains s 10 ≡ false

abbrev pub IsAscii : Text → Type 0
IsAscii s = All (λ c. c < 128) s

-- Each line with a line break behind it.
abbrev pub unlines : List Text → Text
unlines [] = []
unlines (l ∷ ls) = l ++ (10 ∷ unlines ls)

split_lines-line :
    (l s : Text)
    → contains l 10 ≡ false
    → split_lines (l ++ (10 ∷ s)) ≡ (l ∷ (split_lines s).0, (split_lines s).1)
unfolding split_lines cons_line
split_lines-line [] s h = ground arith
split_lines-line (c ∷ l) s h =
    let ih = split_lines-line l s (ground arith) in
    let other : (c == 10) ≡ false = ground arith in rw (other, ih) refl

split_lines-unlines :
    (ls : List Text) → All (λ l. contains l 10 ≡ false) ls → split_lines (unlines ls) ≡ (ls, [])
unfolding split_lines
split_lines-unlines [] h = refl
split_lines-unlines (l ∷ ls) h =
    split_lines-line l (unlines ls) h.0
    ∙ (λ i. (l ∷ (split_lines-unlines ls h.1 i).0, (split_lines-unlines ls h.1 i).1))

-- The lines of a file are read back.
pub lines-unlines : (ls : List Text) → All (λ l. contains l 10 ≡ false) ls → lines (unlines ls) ≡ ls
unfolding lines with_last
lines-unlines ls h = rw (split_lines-unlines ls h) refl

pub is_utf8-ascii : (a s : Text) → IsAscii a → is_utf8 (a ++ s) ≡ is_utf8 s
unfolding is_utf8 utf8_from
is_utf8-ascii [] s h = refl
is_utf8-ascii (c ∷ a) s h =
    let ih = is_utf8-ascii a s h.1 in let small : ltb c 0x80 ≡ true = ground arith in rw small ih

-- A space in front of a text is no part of a character.
pub skip_first-space : (v : Text) → is_utf8 v ≡ true → skip_first (32 ∷ v) ≡ ok v
unfolding is_utf8 utf8_from skip_first
skip_first-space [] h = refl
skip_first-space (c ∷ s) h = ground arith

digit_ascii : (c : ℕ) → is_digit c ≡ true → c < 128
unfolding is_digit
digit_ascii c h = ground arith

no_break : (s : Text) → AreDigits s → contains s 10 ≡ false
unfolding is_digit
no_break [] h = refl
no_break (c ∷ s) h = ground (arith, no_break s)

pub decimal-IsText : (n : ℕ) → IsText (decimal n)
unfolding is_utf8
decimal-IsText n =
    let d = decimal-AreDigits n in
    record {
      valid =
          ap is_utf8 (sym (append-nil (decimal n)))
          ∙ is_utf8-ascii (decimal n) [] (All-map _ _ digit_ascii (decimal n) d);
      one_line = no_break (decimal n) d;
    }
