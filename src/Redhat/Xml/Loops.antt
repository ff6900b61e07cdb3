-- ===== src/Redhat/Xml/Loops.antt =====
-- The loops of the parsers of src/redhat.rs, when their turns do not panic.
use reposync.Base.{
  ℕ, zero, suc, ◌<◌, ◌≤◌, ◌≡◌, refl, Option, none, some, List, [], ◌∷◌, Text, length, arith,
  text_eq,
}
use reposync.Base.Outcome.{Result, ok, err, panic, ◌>>=◌}
use reposync.Base.Crates.{XmlEvent, start_element, characters, end_element, other_event, xml_error}
use reposync.Redhat.Xml.{Attributes, Turn, go_on, stop, inner_loop, outer_loop}

-- A result that is no panic.
abbrev pub IsCalm : {A : Type 0} → Result A → Type 0
IsCalm (ok a) = Unit
IsCalm (err e) = Unit
IsCalm panic = ⊥

pub IsCalm-bind :
    {A B : Type 0} (m : Result A) (f : A → Result B)
    → IsCalm m
    → ((a : A) → IsCalm (f a))
    → IsCalm (m >>= f)
IsCalm-bind (ok a) f h k = k a
IsCalm-bind (err e) f h k = tt
IsCalm-bind panic f h k = h

-- A result that is no panic, with no more than `n` events left.
abbrev pub IsWithin : {A : Type 0} → ℕ → Result (A × List XmlEvent) → Type 0
IsWithin n (ok (a, rest)) = length rest ≤ n
IsWithin n (err e) = Unit
IsWithin n panic = ⊥

IsWithin-le :
    {A : Type 0} (m n : ℕ) (r : Result (A × List XmlEvent)) → m ≤ n → IsWithin m r → IsWithin n r
IsWithin-le m n (ok (a, rest)) h k = omega arith
IsWithin-le m n (err e) h k = tt
IsWithin-le m n panic h k = k

module _ {A : Type 0} (turn : XmlEvent → A → Result (Turn A))
    (calm : (e : XmlEvent) (a : A) → IsCalm (turn e a)) where
  inner_step :
      (e : XmlEvent) (rest : List XmlEvent) (a : A) (r : Result (Turn A))
      → turn e a ≡ r
      → IsCalm r
      → ((b : A) → IsWithin (length rest) (inner_loop turn rest b))
      → IsWithin (length rest) (inner_loop turn (e ∷ rest) a)
  unfolding inner_loop
  inner_step e rest a (ok (go_on b)) h c ih = rw (inner_loop, h) (ih b)
  inner_step e rest a (ok (stop b)) h c ih = rw (inner_loop, h) (omega arith)
  inner_step e rest a (err x) h c ih = rw (inner_loop, h) tt
  inner_step e rest a panic h c ih = absurd c

  pub inner_loop-IsWithin :
      (events : List XmlEvent) (a : A) → IsWithin (length events) (inner_loop turn events a)
  unfolding inner_loop
  inner_loop-IsWithin [] a = omega arith
  inner_loop-IsWithin (e ∷ rest) a =
      IsWithin-le (length rest) (suc (length rest)) _ (omega arith)
        (inner_step e rest a (turn e a) refl (calm e a) (inner_loop-IsWithin rest))

abbrev pub IsOptional : {A : Type 0} → ℕ → Option (Result (A × List XmlEvent)) → Type 0
IsOptional n none = Unit
IsOptional n (some r) = IsWithin n r

module _ {A : Type 0}
    (element : Text → Attributes → List XmlEvent → Option (Result (A × List XmlEvent)))
    (within : (name : Text) (attributes : Attributes) (rest : List XmlEvent)
      → IsOptional (length rest) (element name attributes rest)) where
  outer_step :
      (n : ℕ) (name : Text) (attributes : Attributes) (rest : List XmlEvent) (entries : List A)
      (r : Option (Result (A × List XmlEvent)))
      → element name attributes rest ≡ r
      → IsOptional (length rest) r
      → ((events : List XmlEvent) (es : List A)
          → length events ≤ length rest
          → IsCalm (outer_loop element n events es))
      → IsCalm (outer_loop element (suc n) (start_element name attributes ∷ rest) entries)
  unfolding outer_loop
  outer_step n name attributes rest entries none h c ih =
      rw (outer_loop, h) (ih rest entries (omega arith))
  outer_step n name attributes rest entries (some (ok (a, rest'))) h c ih =
      rw (outer_loop, h) (ih rest' _ c)
  outer_step n name attributes rest entries (some (err x)) h c ih = rw (outer_loop, h) tt
  outer_step n name attributes rest entries (some panic) h c ih = absurd c

  pub outer_loop-IsCalm :
      (n : ℕ) (events : List XmlEvent) (entries : List A)
      → length events < n
      → IsCalm (outer_loop element n events entries)
  unfolding outer_loop
  outer_loop-IsCalm zero events entries h = absurd (omega arith)
  outer_loop-IsCalm (suc n) [] entries h = tt
  outer_loop-IsCalm (suc n) (start_element name attributes ∷ rest) entries h =
      outer_step n name attributes rest entries (element name attributes rest) refl
        (within name attributes rest) (λ events es k. outer_loop-IsCalm n events es (omega arith))
  outer_loop-IsCalm (suc n) (xml_error message ∷ rest) entries h = tt
  outer_loop-IsCalm (suc n) (characters t ∷ rest) entries h =
      outer_loop-IsCalm n rest entries (omega arith)
  outer_loop-IsCalm (suc n) (end_element t ∷ rest) entries h =
      outer_loop-IsCalm n rest entries (omega arith)
  outer_loop-IsCalm (suc n) (other_event ∷ rest) entries h =
      outer_loop-IsCalm n rest entries (omega arith)
