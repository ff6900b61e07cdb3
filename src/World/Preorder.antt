-- ===== src/World/Preorder.antt =====
-- Relations between the states before and after an action, with one rule for each way to build an
-- action.
use reposync.Base.{Bool, true, false, if◌then◌else◌, ◌≡◌, refl, ◌∙◌, Text}
use reposync.Base.Outcome.{Outcome, ok, err, panic}
use reposync.World.Defs.{
  World, Exec, Io, continue, pure, throw, abort, lift, try, unwrap, with_context, with_world, ◌>>=◌,
}

pub record IsPreorder (R : World → World → Type 0) : Type 0 where
  pub rel_refl : (w : World) → R w w
  pub rel_trans : (u v w : World) → R u v → R v w → R u w

-- `m` stays within `R`, whatever its outcome.
pub record Keeps {E A : Type 0} (R : World → World → Type 0) (m : Exec E A) : Type 0 where
  pub at : (w : World) → R w (m w).1

module _ {R : World → World → Type 0} (p : IsPreorder R) where
  pub Keeps-pure : {E A : Type 0} (a : A) → Keeps R (pure {E = E} a)
  unfolding pure
  Keeps-pure a = record { at = p.rel_refl }

  pub Keeps-throw : {E A : Type 0} (e : E) → Keeps R (throw {A = A} e)
  unfolding throw
  Keeps-throw e = record { at = p.rel_refl }

  pub Keeps-abort : {E A : Type 0} → Keeps R (abort {E = E} {A = A})
  unfolding abort
  Keeps-abort = record { at = p.rel_refl }

  pub Keeps-lift : {E A : Type 0} (r : Outcome E A) → Keeps R (lift r)
  unfolding lift
  Keeps-lift r = record { at = p.rel_refl }

  continue-rel :
      {E A B : Type 0} (r : Outcome E A) (f : A → Exec E B) (w : World)
      → ((a : A) → Keeps R (f a))
      → R w (continue r f w).1
  continue-rel (ok a) f w k = (k a).at w
  continue-rel (err e) f w k = p.rel_refl w
  continue-rel panic f w k = p.rel_refl w

  pub Keeps-bind :
      {E A B : Type 0} (m : Exec E A) (f : A → Exec E B)
      → Keeps R m
      → ((a : A) → Keeps R (f a))
      → Keeps R (m >>= f)
  unfolding ◌>>=◌
  Keeps-bind m f h k = record {
    at = λ w. p.rel_trans w (m w).1 _ (h.at w) (continue-rel (m w).0 f (m w).1 k);
  }

module _ {R : World → World → Type 0} where
  pub Keeps-try : {E F A : Type 0} (m : Exec E A) → Keeps R m → Keeps R (try {F = F} m)
  unfolding try
  Keeps-try m h = record { at = h.at }

  pub Keeps-unwrap : {E F A : Type 0} (m : Exec E A) → Keeps R m → Keeps R (unwrap {F = F} m)
  unfolding unwrap
  Keeps-unwrap m h = record { at = h.at }

  pub Keeps-with_context :
      {A : Type 0} (prefix : Text) (m : Io A) → Keeps R m → Keeps R (with_context prefix m)
  unfolding with_context
  Keeps-with_context prefix m h = record { at = h.at }

  pub Keeps-with_world :
      {E A : Type 0} (f : World → Exec E A) → ((w : World) → R w (f w w).1) → Keeps R (with_world f)
  unfolding with_world
  Keeps-with_world f h = record { at = h }

  pub Keeps-if :
      {E A : Type 0} (b : Bool) (m n : Exec E A)
      → Keeps R m
      → Keeps R n
      → Keeps R (if b then m else n)
  Keeps-if true m n h k = h
  Keeps-if false m n h k = k

-- What a view shows at one place.
abbrev pub SameAt : {A : Type 0} → (World → A) → World → World → Type 0
SameAt view w w' = view w' ≡ view w

pub SameAt-preorder : {A : Type 0} (view : World → A) → IsPreorder (SameAt view)
SameAt-preorder view = record { rel_refl = λ w. refl; rel_trans = λ u v w h k. k ∙ h }

pub ruleset keeps_rules = (
  Keeps-pure, Keeps-throw, Keeps-abort, Keeps-lift, Keeps-bind, Keeps-try, Keeps-unwrap,
  Keeps-with_context, Keeps-if,
)
