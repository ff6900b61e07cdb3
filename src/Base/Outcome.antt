-- ===== src/Base/Outcome.antt =====
-- `std::io::Error`, and what a call gives: a value, an error, or a panic.
use mathlib.Core.Path.{◌≡◌, refl}
use reposync.Base.Texts.{Text}

-- `std::io::ErrorKind`: the kinds that the program names or creates, and one for all others.
pub data ErrorKind : Type 0 where
  not_found invalid_data invalid_input would_block other unlisted : ErrorKind

pub record IoError : Type 0 where
  pub kind : ErrorKind
  pub message : Text

pub data Outcome {ℓ} (E A : Type ℓ) : Type ℓ where
  ok : A → Outcome E A
  err : E → Outcome E A
  panic : Outcome E A

abbrev pub Result : Type 0 → Type 0
Result A = Outcome IoError A

infixl 5 ◌>>=◌ ◌>>◌
abbrev pub ◌>>=◌ {ℓ} : {E A B : Type ℓ} → Outcome E A → (A → Outcome E B) → Outcome E B
panic >>= then_do = panic
err e >>= then_do = err e
ok a >>= then_do = then_do a

abbrev pub ◌>>◌ {ℓ} : {E A B : Type ℓ} (first : Outcome E A) (second : Outcome E B) → Outcome E B
first >> second = first >>= λ _. second

abbrev pub io_error : ErrorKind → Text → IoError
io_error k m = record { kind = k; message = m }

-- A sequence that ends well has a first part that ended well.
pub >>=-eq-ok {ℓ} :
    {E A B : Type ℓ} (first : Outcome E A) (next : A → Outcome E B) {result : B}
    → (first >>= next) ≡ ok result
    → (x : A) × (first ≡ ok x) × (next x ≡ ok result)
>>=-eq-ok panic next ended = cc
>>=-eq-ok (err e) next ended = cc
>>=-eq-ok (ok x) next ended = (x, refl, ended)

pub ok-injective {ℓ} : {E A : Type ℓ} (a b : A) → ◌≡◌ {A = Outcome E A} (ok a) (ok b) → a ≡ b
ok-injective {E} {A} a b p = λ i. value (p i)
  where
    value : Outcome E A → A
    value (ok x) = x
    value (err e) = a
    value panic = a
