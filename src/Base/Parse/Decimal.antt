-- ===== src/Base/Parse/Decimal.antt =====
-- Numbers in decimal, and how the parser of unsigned integers reads them.
use mathlib.Core.List.{reverse, reverse-cons, reverse-reverse}
use reposync.Base.{
  ℕ, zero, suc, ◌+◌, ◌-◌, ◌*◌, ◌/◌, ◌%◌, ◌^◌, ◌<◌, ◌≡◌, ◌≢◌, refl, ◌∙◌, true, Option, none, some,
  [], ◌∷◌, ◌++◌, Text, arith, ℕ_eq, ltb, if◌then◌else◌, All, All-append, inl, inr, Bool-cases,
}
use reposync.Base.Parse.{is_digit, digits, digits_some, parse_u64, is_space, trim_start, trim}

-- The digits of a number, the last one last; the fuel is more than the number.
decimal_from : ℕ → ℕ → Text
decimal_from zero n = []
decimal_from (suc f) n =
    let more = decimal_from f (n / 10) in
    if ltb n 10 then (48 + n) ∷ [] else more ++ (48 + n % 10) ∷ []

-- `to_string` of an unsigned integer.
unfoldable pub decimal : ℕ → Text
unfolding decimal_from
decimal n = decimal_from (suc n) n

abbrev pub AreDigits : Text → Type 0
AreDigits s = All (λ c. is_digit c ≡ true) s

decimal_from-AreDigits : (f n : ℕ) → AreDigits (decimal_from f n)
unfolding decimal_from is_digit
decimal_from-AreDigits zero n = tt
decimal_from-AreDigits (suc f) n = elim (Bool-cases (ltb n 10)) [
  | inl small ↦ rw small (ground arith, tt)
  | inr large ↦ rw large (
      All-append _ (decimal_from f (n / 10)) _ (decimal_from-AreDigits f (n / 10))
        (ground arith, tt))
]

abbrev then_digits : Option ℕ → Text → Option ℕ
then_digits none t = none
then_digits (some n) t = digits n t

digits-append : (s t : Text) (n : ℕ) → digits n (s ++ t) ≡ then_digits (digits n s) t
unfolding digits
digits-append [] t n = refl
digits-append (c ∷ s) t n = elim (Bool-cases (is_digit c)) [
  | inl h ↦ rw h (digits-append s t (n * 10 + (c - b'0')))
  | inr h ↦ rw h
]

digits-decimal_from : (f n : ℕ) → n < f → digits 0 (decimal_from f n) ≡ some n
unfolding decimal_from digits is_digit
digits-decimal_from zero n h = absurd (omega arith)
digits-decimal_from (suc f) n h = elim (Bool-cases (ltb n 10)) [
  | inl small ↦ rw small (ground arith)
  | inr large ↦
      let ih = digits-decimal_from f (n / 10) (ground arith) in
      rw large (digits-append (decimal_from f (n / 10)) _ 0 ∙ rw ih (ground arith))
]

not_plus :
    (c : ℕ) (s : Text)
    → is_digit c ≡ true
    → parse_u64 (c ∷ s)
      ≡ elim (digits 0 (c ∷ s)) [ some n ↦ if ltb n (2 ^ 64) then some n else none | none ↦ none ]
unfolding parse_u64 is_digit
not_plus c s h = ground arith

read_digits :
    (t : Text) (n : ℕ)
    → AreDigits t
    → t ≢ []
    → digits 0 t ≡ some n
    → n < 2 ^ 64
    → parse_u64 t ≡ some n
read_digits [] n d nonempty e h = absurd (nonempty refl)
read_digits (c ∷ s) n d nonempty e h = not_plus c s d.0 ∙ rw e (ground arith)

append-ne-nil : (s : Text) (c : ℕ) → s ++ c ∷ [] ≢ []
append-ne-nil [] c e = cc
append-ne-nil (d ∷ s) c e = cc

decimal-ne-nil : (n : ℕ) → decimal n ≢ []
unfolding decimal decimal_from
decimal-ne-nil n e = elim (Bool-cases (ltb n 10)) [
  | inl small ↦ (let h : (48 + n) ∷ [] ≡ [] = rw small at e in cc)
  | inr large ↦ append-ne-nil (decimal_from n (n / 10)) (48 + n % 10) (rw large at e)
]

nonempty_digits : (t : Text) (n : ℕ) → t ≢ [] → digits 0 t ≡ some n → digits_some t ≡ some n
unfolding digits_some
nonempty_digits [] n nonempty e = absurd (nonempty refl)
nonempty_digits (c ∷ s) n nonempty e = e

pub digits_some-decimal : (n : ℕ) → digits_some (decimal n) ≡ some n
unfolding decimal
digits_some-decimal n =
    nonempty_digits (decimal n) n (decimal-ne-nil n) (digits-decimal_from (suc n) n (omega arith))

-- What is printed of a number of 64 bits is read as that number.
pub parse_u64-decimal : (n : ℕ) → n < 2 ^ 64 → parse_u64 (decimal n) ≡ some n
unfolding decimal
parse_u64-decimal n h =
    read_digits (decimal n) n (decimal_from-AreDigits (suc n) n) (decimal-ne-nil n)
      (digits-decimal_from (suc n) n (omega arith)) h

trim_start-digits : (s : Text) → AreDigits s → trim_start s ≡ s
unfolding trim_start is_space is_digit
trim_start-digits [] d = refl
trim_start-digits (c ∷ s) d = ground arith

AreDigits-reverse : (s : Text) → AreDigits s → AreDigits (reverse s)
AreDigits-reverse [] d = tt
AreDigits-reverse (c ∷ s) d =
    rw reverse-cons (All-append _ (reverse s) (c ∷ []) (AreDigits-reverse s d.1) (d.0, tt))

trim-digits : (s : Text) → AreDigits s → trim s ≡ s
unfolding trim
trim-digits s d =
    rw (trim_start-digits s d, trim_start-digits (reverse s) (AreDigits-reverse s d))
      (reverse-reverse s)

pub trim-decimal : (n : ℕ) → trim (decimal n) ≡ decimal n
unfolding decimal
trim-decimal n = trim-digits (decimal n) (decimal_from-AreDigits (suc n) n)

pub decimal-AreDigits : (n : ℕ) → AreDigits (decimal n)
unfolding decimal
decimal-AreDigits n = decimal_from-AreDigits (suc n) n
