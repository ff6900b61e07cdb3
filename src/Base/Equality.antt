-- ===== src/Base/Equality.antt =====
-- Rust's `==`, for every type whose equality can be decided.
use Prim.Native.Nat.{ℕ}
use mathlib.Core.Bool.{Bool, true, false}
use mathlib.Core.Logic.{ite}
use mathlib.Core.Path.{◌≡◌}
use mathlib.Core.List.{List}
use native.Mathlib.Decide.{ℕ_discrete}
use native.Mathlib.Omega.{arith}

pub record Eq {ℓ} (A : Type ℓ) : Type ℓ where
  pub dec : Discrete A

infix 50 ◌==◌
abbrev pub ◌==◌ {ℓ} : {A : Type ℓ} ⦃e : Eq A⦄ → A → A → Bool
◌==◌ ⦃e⦄ a b = ite (e.dec a b) true false

module _ {ℓ} {A : Type ℓ} ⦃e : Eq A⦄ where
  pub ==_self : (a : A) → (a == a) ≡ true
  ==_self a = ground arith

  pub eq_of_== : (a b : A) → (a == b) ≡ true → a ≡ b
  eq_of_== a b h = ground arith

-- The instances stay shut, so that a proof splits on the decision.
unfoldable pub ℕ-discrete : Discrete ℕ
unfolding ℕ_discrete
ℕ-discrete = ℕ_discrete

unfoldable pub text-discrete : Discrete (List ℕ)
unfolding ℕ_discrete
text-discrete = hlevel ℕ_discrete

unfoldable pub texts-discrete : Discrete (List (List ℕ))
unfolding ℕ_discrete
texts-discrete = hlevel ℕ_discrete

instance abbrev pub ℕ_eq : Eq ℕ
ℕ_eq = record { dec = ℕ-discrete }

instance abbrev pub text_eq : Eq (List ℕ)
text_eq = record { dec = text-discrete }

instance abbrev pub texts_eq : Eq (List (List ℕ))
texts_eq = record { dec = texts-discrete }
