-- ===== src/Base/Dict.antt =====
-- `BTreeMap<String, V>`: an association list kept in the order of its keys.
use reposync.Base.{◌≡◌, refl, Option, none, some, List, [], ◌∷◌, arith}
use reposync.Base.{Text, text_lt, ◌==◌, text_eq, if◌then◌else◌}

abbrev pub Dict {ℓ} : Type ℓ → Type ℓ
Dict V = List (Text × V)

module _ {ℓ} {V : Type ℓ} where
  abbrev pub get : Dict V → Text → Option V
  get [] k = none
  get ((j, v) ∷ d) k = if j == k then some v else get d k

  -- `insert` replaces the value of a key that is there.
  unfoldable pub insert : Text → V → Dict V → Dict V
  insert k v [] = (k, v) ∷ []
  insert k v ((j, w) ∷ d) =
      let rest : Dict V = (j, w) ∷ insert k v d in
      if j == k then (k, v) ∷ d else if text_lt k j then (k, v) ∷ (j, w) ∷ d else rest

  pub get-insert :
      (k j : Text) (v : V) (d : Dict V)
      → get (insert k v d) j ≡ (if k == j then some v else get d j)
  unfolding insert
  get-insert k j v [] = refl
  get-insert k j v ((i, w) ∷ d) = ground (arith, get-insert k j v d)

  -- `remove`
  unfoldable pub remove : Text → Dict V → Dict V
  remove k [] = []
  remove k ((j, w) ∷ d) = let rest = remove k d in if j == k then rest else (j, w) ∷ rest

  pub get-remove :
      (k j : Text) (d : Dict V) → get (remove k d) j ≡ (if k == j then none else get d j)
  unfolding remove
  get-remove k j [] = ground arith
  get-remove k j ((i, w) ∷ d) = ground (arith, get-remove k j d)
