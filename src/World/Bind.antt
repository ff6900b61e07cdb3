-- ===== src/World/Bind.antt =====
-- Actions that succeed: what their parts did.
use reposync.Base.{◌≡◌, refl}
use reposync.Base.Outcome.{Outcome, ok, err, panic, IoError}
use reposync.Base.{Text}
use reposync.World.Defs.{
  World, Exec, Io, pure, continue, unwrapped, ◌>>=◌, with_context, in_context, unwrap,
}

-- The outcome and the state of an action that returned.
abbrev pub Returns : {E A : Type 0} → Exec E A → World → A → World → Type 0
Returns m w a w' = m w ≡ (ok a, w')

continue-ok :
    {E A B : Type 0} (r : Outcome E A) (f : A → Exec E B) (w w' : World) (b : B)
    → continue r f w ≡ (ok b, w')
    → (a : A) × (r ≡ ok a) × (f a w ≡ (ok b, w'))
continue-ok (ok a) f w w' b h = (a, refl, h)
continue-ok (err e) f w w' b h = cc
continue-ok panic f w w' b h = cc

pub bind-Returns :
    {E A B : Type 0} (m : Exec E A) (f : A → Exec E B) (w w' : World) (b : B)
    → Returns (m >>= f) w b w'
    → (a : A) × Returns m w a (m w).1 × Returns (f a) (m w).1 b w'
unfolding ◌>>=◌
bind-Returns m f w w' b h =
    let (a, p, q) = continue-ok (m w).0 f (m w).1 w' b h in (a, λ i. (p i, (m w).1), q)

pub pure-Returns :
    {E A : Type 0} (a b : A) (w w' : World) → Returns (pure {E = E} a) w b w' → (a ≡ b) × (w ≡ w')
unfolding pure
pure-Returns {E} {A} a b w w' h = (ok-injective (λ i. (h i).0), λ i. (h i).1)
  where
    value : Outcome E A → A
    value (ok x) = x
    value (err e) = a
    value panic = a

    ok-injective : ◌≡◌ {A = Outcome E A} (ok a) (ok b) → a ≡ b
    ok-injective p = λ i. value (p i)

in_context-ok :
    {A : Type 0} (prefix : Text) (r : Outcome IoError A) (a : A)
    → in_context prefix r ≡ ok a
    → r ≡ ok a
in_context-ok prefix (ok b) a h = h
in_context-ok prefix (err e) a h = cc
in_context-ok prefix panic a h = cc

pub with_context-Returns :
    {A : Type 0} (prefix : Text) (m : Io A) (w w' : World) (a : A)
    → Returns (with_context prefix m) w a w'
    → Returns m w a w'
unfolding with_context
with_context-Returns prefix m w w' a h =
    λ i. (in_context-ok prefix (m w).0 a (λ j. (h j).0) i, (h i).1)

unwrapped-ok : {E F A : Type 0} (r : Outcome E A) (a : A) → unwrapped {F = F} r ≡ ok a → r ≡ ok a
unwrapped-ok (ok b) a h = cc
unwrapped-ok (err e) a h = cc
unwrapped-ok panic a h = cc

pub unwrap-Returns :
    {E F A : Type 0} (m : Exec E A) (w w' : World) (a : A)
    → Returns (unwrap {F = F} m) w a w'
    → Returns m w a w'
unfolding unwrap
unwrap-Returns m w w' a h = λ i. (unwrapped-ok (m w).0 a (λ j. (h j).0) i, (h i).1)
