-- ===== src/Sync/Diff/Dedup.antt =====
-- `deduplicate_list` of src/sync.rs.
use reposync.Base.{
  ◌≡◌, refl, inl, inr, false, ◌||◌, List, [], ◌∷◌, ◌++◌, arith, contains, contains-append, IsNodup,
  Eq, Bool-cases,
}
use reposync.Sync.Diff.{dedup_loop, deduplicate_list}

module _ {ℓ} {A : Type ℓ} ⦃e : Eq A⦄ where
  dedup_loop-contains :
      (tmp xs : List A) (a : A) → contains (dedup_loop tmp xs) a ≡ (contains tmp a || contains xs a)
  unfolding dedup_loop
  dedup_loop-contains tmp [] a = ground arith
  dedup_loop-contains tmp (x ∷ xs) a = elim (Bool-cases (contains tmp x)) [
    | inl old ↦ rw old (ground (arith, dedup_loop-contains tmp xs a))
    | inr new ↦
        rw new
          (ground (arith, dedup_loop-contains (tmp ++ x ∷ []) xs a, contains-append tmp (x ∷ []) a))
  ]

  append-IsNodup :
      (xs : List A) (a : A) → IsNodup xs → contains xs a ≡ false → IsNodup (xs ++ a ∷ [])
  append-IsNodup [] a u h = (refl, tt)
  append-IsNodup (x ∷ xs) a u h =
      ground (arith, contains-append xs (a ∷ []) x, append-IsNodup xs a u.1)

  dedup_loop-IsNodup : (tmp xs : List A) → IsNodup tmp → IsNodup (dedup_loop tmp xs)
  unfolding dedup_loop
  dedup_loop-IsNodup tmp [] u = u
  dedup_loop-IsNodup tmp (x ∷ xs) u = elim (Bool-cases (contains tmp x)) [
    | inl old ↦ rw old (dedup_loop-IsNodup tmp xs u)
    | inr new ↦ rw new (dedup_loop-IsNodup (tmp ++ x ∷ []) xs (append-IsNodup tmp x u new))
  ]

  pub deduplicate_list-contains :
      (xs : List A) (a : A) → contains (deduplicate_list xs) a ≡ contains xs a
  unfolding deduplicate_list
  deduplicate_list-contains xs a = dedup_loop-contains [] xs a

  -- The list keeps its operations, each of them once.
  pub deduplicate_list-IsNodup :
      (xs : List A)
      → IsNodup (deduplicate_list xs) × ((a : A) → contains (deduplicate_list xs) a ≡ contains xs a)
  unfolding deduplicate_list
  deduplicate_list-IsNodup xs = (dedup_loop-IsNodup [] xs tt, dedup_loop-contains [] xs)
