-- ===== src/Sync/Diff/Maps.antt =====
-- The maps of `repo_diff` from paths to values, which `collect` builds.
use reposync.Base.{
  ◌≡◌, sym, ◌∙◌, ap, ◌⊎◌, inl, inr, some, List, [], ◌∷◌, Text, arith, text_eq, text_lt, eq_of_==,
  Bool-cases, ◌==◌,
}
use reposync.Base.Dict.{Dict, get, insert, get-insert}
use reposync.Base.Members.{In}
use reposync.Sync.Diff.{collect}

module _ {A : Type 0} where
  -- What stands in a map after an insertion is the new entry, or stood there before.
  In-insert :
      (e : Text × A) (k : Text) (x : A) (d : Dict A) → In e (insert k x d) → ((k, x) ≡ e) ⊎ In e d
  unfolding insert
  In-insert e k x [] (inl h) = inl h
  In-insert e k x [] (inr m) = absurd m
  In-insert e k x ((j, y) ∷ d) m = elim (Bool-cases (j == k)) [
    | inl same ↦ elim (rw same at m) [ inl h ↦ inl h | inr n ↦ inr (inr n) ]
    | inr other ↦ elim (Bool-cases (text_lt k j)) [
      | inl lt ↦ elim (rw (other, lt) at m) [ inl h ↦ inl h | inr n ↦ inr n ]
      | inr ge ↦ elim (rw (other, ge) at m) [
        | inl h ↦ inr (inl h)
        | inr n ↦ elim (In-insert e k x d n) [ inl h ↦ inl h | inr n' ↦ inr (inr n') ]
      ]
    ]
  ]

  -- A value that a map gives stands in it.
  pub In-of_get : (d : Dict A) (k : Text) (x : A) → get d k ≡ some x → In (k, x) d
  In-of_get [] k x h = cc
  In-of_get ((j, y) ∷ d) k x h = elim (Bool-cases (j == k)) [
    | inl same ↦ (let e : y ≡ x = ground arith in inl (λ i. (eq_of_== j k same i, e i)))
    | inr other ↦ inr (In-of_get d k x (rw other at h))
  ]

  module _ (path : A → Text) where
    -- An entry of a collected map is a value of the list, under its path.
    pub In-of_collect :
        (d : Dict A) (xs : List A) (k : Text) (x : A)
        → In (k, x) (collect path d xs)
        → In (k, x) d ⊎ (In x xs × (path x ≡ k))
    unfolding collect
    In-of_collect d [] k x m = inl m
    In-of_collect d (y ∷ ys) k x m = elim (In-of_collect (insert (path y) y d) ys k x m) [
      | inr (n, p) ↦ inr (inr n, p)
      | inl n ↦ elim (In-insert (k, x) (path y) y d n) [
        | inr o ↦ inl o
        | inl e ↦ inr (inl (ap (λ z. z.1) e), sym (ap (λ z. path z.1) e) ∙ ap (λ z. z.0) e)
      ]
    ]

    collect-keeps :
        (d : Dict A) (xs : List A) (k : Text) (x : A)
        → get d k ≡ some x
        → (y : A) × (get (collect path d xs) k ≡ some y)
    unfolding collect
    collect-keeps d [] k x h = (x, h)
    collect-keeps d (y ∷ ys) k x h = elim (Bool-cases (path y == k)) [
      | inl same ↦
          collect-keeps (insert (path y) y d) ys k y (ground (arith, get-insert (path y) k y d))
      | inr other ↦
          collect-keeps (insert (path y) y d) ys k x (ground (arith, get-insert (path y) k y d))
    ]

    -- The path of every value of the list is a key.
    pub get-collect :
        (d : Dict A) (xs : List A) (x : A)
        → In x xs
        → (y : A) × (get (collect path d xs) (path x) ≡ some y)
    unfolding collect
    get-collect d [] x m = absurd m
    get-collect d (y ∷ ys) x (inl e) =
        collect-keeps (insert (path y) y d) ys (path x) y
          (ground (arith, get-insert (path y) (path x) y d, ap path e))
    get-collect d (y ∷ ys) x (inr m) = get-collect (insert (path y) y d) ys x m
