-- ===== src/Base/Parse/Signed.antt =====
-- Signed integers of 64 bits: the cast `as i64`, `to_string` and `from_str`.
use reposync.Base.{
  ℕ, zero, suc, ◌-◌, ◌%◌, ◌^◌, ◌<◌, ◌≡◌, refl, ◌∙◌, ap, true, false, ◌==◌, ℕ_eq, ltb, Option, none,
  some, [], ◌∷◌, Text, All, All-map, arith, if◌then◌else◌, ℕ-discrete, Bool-cases, inl, inr,
}
use reposync.Base.Parse.{is_digit, digits_some}
use reposync.Base.Parse.Decimal.{decimal, decimal-AreDigits, digits_some-decimal, AreDigits}

-- `negsuc n` is the integer below `-n`.
pub data ℤ : Type 0 where
  pos : ℕ → ℤ
  negsuc : ℕ → ℤ

-- A number as an `i64`: its last 64 bits.
unfoldable pub as_i64 : ℕ → ℤ
as_i64 n =
    if ltb (n % 2 ^ 64) (2 ^ 63) then pos (n % 2 ^ 64) else negsuc (2 ^ 64 - (n % 2 ^ 64) - 1)

abbrev pub IsI64 : ℤ → Type 0
IsI64 (pos n) = n < 2 ^ 63
IsI64 (negsuc n) = n < 2 ^ 63

unfoldable pub print_i64 : ℤ → Text
print_i64 (pos n) = decimal n
print_i64 (negsuc n) = 45 ∷ decimal (suc n)

positive : Option ℕ → Option ℤ
positive none = none
positive (some n) = if ltb n (2 ^ 63) then some (pos n) else none

negative : Option ℕ → Option ℤ
negative none = none
negative (some zero) = some (pos 0)
negative (some (suc n)) = if ltb n (2 ^ 63) then some (negsuc n) else none

unfoldable pub parse_i64 : Text → Option ℤ
unfolding positive negative digits_some
parse_i64 [] = none
parse_i64 (c ∷ s) =
    if c == 45
    then negative (digits_some s)
    else if c == 43
    then positive (digits_some s)
    else positive (digits_some (c ∷ s))

no_sign :
    (c : ℕ) (s : Text) → is_digit c ≡ true → parse_i64 (c ∷ s) ≡ positive (digits_some (c ∷ s))
unfolding parse_i64 is_digit
no_sign c s h = ground arith

read_positive :
    (t : Text) (n : ℕ)
    → AreDigits t
    → digits_some t ≡ some n
    → n < 2 ^ 63
    → parse_i64 t ≡ some (pos n)
unfolding positive digits_some
read_positive [] n d e h = cc
read_positive (c ∷ s) n d e h =
    let small : ltb n (2 ^ 63) ≡ true = ground arith in
    no_sign c s d.0 ∙ ap positive e ∙ rw small refl

pub parse_i64-print_i64 : (z : ℤ) → IsI64 z → parse_i64 (print_i64 z) ≡ some z
unfolding print_i64 parse_i64 negative decimal ℕ-discrete
parse_i64-print_i64 (pos n) h =
    read_positive (decimal n) n (decimal-AreDigits n) (digits_some-decimal n) h
parse_i64-print_i64 (negsuc n) h =
    let small : ltb n (2 ^ 63) ≡ true = ground arith in
    ap negative (digits_some-decimal (suc n)) ∙ rw small refl

pub as_i64-IsI64 : (n : ℕ) → IsI64 (as_i64 n)
unfolding as_i64
as_i64-IsI64 n = elim (Bool-cases (ltb (n % 2 ^ 64) (2 ^ 63))) [
  | inl small ↦ rw small (ground arith)
  | inr large ↦ rw large (ground arith)
]

digit-ne : (c : ℕ) → is_digit c ≡ true → (c == 44) ≡ false
unfolding is_digit
digit-ne c h = ground arith

-- A printed integer has no comma.
pub print_i64-ne : (z : ℤ) → All (λ c. (c == 44) ≡ false) (print_i64 z)
unfolding print_i64 ℕ-discrete
print_i64-ne (pos n) = All-map _ _ digit-ne (decimal n) (decimal-AreDigits n)
print_i64-ne (negsuc n) = (refl, All-map _ _ digit-ne (decimal (suc n)) (decimal-AreDigits (suc n)))
