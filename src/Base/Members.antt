-- ===== src/Base/Members.antt =====
-- Membership in a list, with the place kept.
use mathlib.Core.Path.{subst}
use reposync.Base.{
  All, ◌≡◌, refl, sym, ap, ◌∙◌, ◌⊎◌, inl, inr, Bool, true, List, [], ◌∷◌, ◌++◌, map, filter, arith,
  Eq, ◌==◌, eq_of_==, contains, Bool-cases,
}

abbrev pub In : {A : Type 0} → A → List A → Type 0
In a [] = ⊥
In a (x ∷ xs) = (x ≡ a) ⊎ In a xs

module _ {A : Type 0} where
  pub In-append_left : (a : A) (xs ys : List A) → In a xs → In a (xs ++ ys)
  In-append_left a [] ys m = absurd m
  In-append_left a (x ∷ xs) ys (inl e) = inl e
  In-append_left a (x ∷ xs) ys (inr m) = inr (In-append_left a xs ys m)

  pub In-append_right : (a : A) (xs ys : List A) → In a ys → In a (xs ++ ys)
  In-append_right a [] ys m = m
  In-append_right a (x ∷ xs) ys m = inr (In-append_right a xs ys m)

  pub In-append : (a : A) (xs ys : List A) → In a (xs ++ ys) → In a xs ⊎ In a ys
  In-append a [] ys m = inr m
  In-append a (x ∷ xs) ys (inl e) = inl (inl e)
  In-append a (x ∷ xs) ys (inr m) = elim (In-append a xs ys m) [
    | inl h ↦ inl (inr h)
    | inr h ↦ inr h
  ]

  pub In-filter : (p : A → Bool) (a : A) (xs : List A) → In a xs → p a ≡ true → In a (filter p xs)
  In-filter p a [] m h = absurd m
  In-filter p a (x ∷ xs) (inl e) h = rw (ap p e, h) (inl e)
  In-filter p a (x ∷ xs) (inr m) h = elim (Bool-cases (p x)) [
    | inl t ↦ rw t (inr (In-filter p a xs m h))
    | inr f ↦ rw f (In-filter p a xs m h)
  ]

  kept :
      (p : A → Bool) (a x : A) (xs : List A)
      → p x ≡ true
      → (In a (filter p xs) → In a xs × (p a ≡ true))
      → (x ≡ a) ⊎ In a (filter p xs)
      → In a (x ∷ xs) × (p a ≡ true)
  kept p a x xs t ih (inl e) = (inl e, ap p (sym e) ∙ t)
  kept p a x xs t ih (inr m) = let (h, q) = ih m in (inr h, q)

  pub In-of_filter :
      (p : A → Bool) (a : A) (xs : List A) → In a (filter p xs) → In a xs × (p a ≡ true)
  In-of_filter p a [] m = absurd m
  In-of_filter p a (x ∷ xs) m = elim (Bool-cases (p x)) [
    | inl t ↦ kept p a x xs t (In-of_filter p a xs) (rw t at m)
    | inr f ↦ (let (h, q) = In-of_filter p a xs (rw f at m) in (inr h, q))
  ]

module _ {ℓ} {A : Type 0} (P : A → Type ℓ) where
  pub All-of_In : (xs : List A) → ((a : A) → In a xs → P a) → All P xs
  All-of_In [] f = tt
  All-of_In (x ∷ xs) f = (f x (inl refl), All-of_In xs (λ a m. f a (inr m)))

  pub All-In : (xs : List A) → All P xs → (a : A) → In a xs → P a
  All-In [] h a m = absurd m
  All-In (x ∷ xs) (p, h) a (inl e) = subst P e p
  All-In (x ∷ xs) (p, h) a (inr m) = All-In xs h a m

module _ {A B : Type 0} (g : A → B) where
  pub In-map : (a : A) (xs : List A) → In a xs → In (g a) (map g xs)
  In-map a [] m = absurd m
  In-map a (x ∷ xs) (inl e) = inl (ap g e)
  In-map a (x ∷ xs) (inr m) = inr (In-map a xs m)

  pub In-of_map : (b : B) (xs : List A) → In b (map g xs) → (a : A) × In a xs × (g a ≡ b)
  In-of_map b [] m = absurd m
  In-of_map b (x ∷ xs) (inl e) = (x, inl refl, e)
  In-of_map b (x ∷ xs) (inr m) = let (a, h, e) = In-of_map b xs m in (a, inr h, e)

module _ {A : Type 0} ⦃e : Eq A⦄ where
  pub contains_of_In : (a : A) (xs : List A) → In a xs → contains xs a ≡ true
  contains_of_In a [] m = absurd m
  contains_of_In a (x ∷ xs) (inl h) = ground arith
  contains_of_In a (x ∷ xs) (inr m) = ground (arith, contains_of_In a xs m)

  pub In-of_contains : (a : A) (xs : List A) → contains xs a ≡ true → In a xs
  In-of_contains a [] h = absurd (ground arith)
  In-of_contains a (x ∷ xs) h = elim (Bool-cases (x == a)) [
    | inl t ↦ inl (eq_of_== x a t)
    | inr f ↦ inr (In-of_contains a xs (ground arith))
  ]
