-- ===== src/Sync/Diff/Planned.antt =====
-- What `repo_diff` of src/sync.rs plans, for the files of the new and of the current repository.
use mathlib.Core.Path.{subst}
use reposync.Base.{
  ◌≡◌, refl, sym, ◌∙◌, ap, ◌⊎◌, inl, inr, Bool, true, false, not, Option, none, some, List, [], ◌∷◌,
  map, Text, arith, filter, Bool-cases, eq_of_==, text_eq, ℕ_eq, if◌then◌else◌,
}
use reposync.Base.Members.{In, In-filter, In-of_filter, In-map, In-of_map}
use reposync.Base.Dict.{get}
use reposync.Base.Outcome.{ok, >>=-eq-ok, ok-injective, ◌>>=◌}
use reposync.Packages.{Package, IndexFile, package_eq, target_eq, same_content}
use reposync.Sync.Diff.{
  CopyOperation, package_changed, package_copy, index_changed, index_copy, index_copies,
  package_map, index_map, copy_eq,
}
use reposync.Sync.Diff.Maps.{In-of_get, In-of_collect, get-collect}
use reposync.Sync.Files.{FileSpec, package_file, index_file, operation_file}

-- A file is the one of an operation.
abbrev pub Copied : FileSpec → List CopyOperation → Type 0
Copied f ops = (o : CopyOperation) × In o ops × (operation_file o ≡ f)

-- Of two files with one path, all is the same.
abbrev pub IsConsistent : List FileSpec → Type 0
IsConsistent fs = (f g : FileSpec) → In f fs → In g fs → f.path ≡ g.path → f ≡ g

-- A package that is not changed is a current one.
package-same :
    (current : List Package) (k : Text) (p : Package) (o : Option Package)
    → get (package_map current) k ≡ o
    → package_changed (package_map current) (k, p) ≡ false
    → In p current
unfolding package_changed
package-same current k p none e h = absurd (ground arith)
package-same current k p (some q) e h =
    let same : p ≡ q = eq_of_== p q (ground arith) in
    elim (In-of_collect (λ x. x.path) [] current k q (In-of_get (package_map current) k q e)) [
      | inl m ↦ absurd m
      | inr (m, _) ↦ subst (λ z. In z current) (sym same) m
    ]

unfoldable pub package_copies : List Package → List Package → List CopyOperation
unfolding package_copy package_changed
package_copies ps current =
    map (package_copy (package_map current))
      (filter (package_changed (package_map current)) (package_map ps))

module _ (ps current : List Package) where
  -- An entry of the new packages is copied, or it is a current package.
  entry-planned :
      (k : Text) (p : Package)
      → In (k, p) (package_map ps)
      → Copied (package_file p) (package_copies ps current) ⊎ In p current
  unfolding package_copies package_copy
  entry-planned k p m = elim (Bool-cases (package_changed (package_map current) (k, p))) [
    | inl changed ↦ inl (
      package_copy (package_map current) (k, p),
      In-map (package_copy (package_map current)) (k, p) _
          (In-filter (package_changed (package_map current)) (k, p) (package_map ps) m changed),
      refl,
    )
    | inr same ↦ inr (package-same current k p (get (package_map current) k) refl same)
  ]

  -- Every file of the new packages is copied, or is one of a current package.
  pub package-planned :
      (p : Package)
      → In p ps
      → ((q : Package) → In q ps → q.path ≡ p.path → package_file q ≡ package_file p)
      → Copied (package_file p) (package_copies ps current)
        ⊎ ((q : Package) × In q current × (package_file q ≡ package_file p))
  package-planned p m same =
      let (q, g) = get-collect (λ x. x.path) [] ps p m in
      elim (In-of_collect (λ x. x.path) [] ps p.path q (In-of_get (package_map ps) p.path q g)) [
        | inl n ↦ absurd n
        | inr (n, e) ↦ elim (entry-planned p.path q (In-of_get (package_map ps) p.path q g)) [
          | inl (o, mo, f) ↦ inl (o, mo, f ∙ same q n e)
          | inr n' ↦ inr (q, n', same q n e)
        ]
      ]

  -- Every copy is of a new package.
  pub package-origin :
      (o : CopyOperation)
      → In o (package_copies ps current)
      → (p : Package) × In p ps × (package_file p ≡ operation_file o)
  unfolding package_copies package_copy
  package-origin o m =
      let ((k, p), n, e) = In-of_map (package_copy (package_map current)) o _ m in
      let (n', _) =
        In-of_filter (package_changed (package_map current)) (k, p) (package_map ps) n in
      elim (In-of_collect (λ x. x.path) [] ps k p n') [
        | inl z ↦ absurd z
        | inr (n'', _) ↦ (p, n'', ap operation_file e)
      ]

not-false : (b : Bool) → not b ≡ false → b ≡ true
not-false true h = refl
not-false false h = absurd (ground arith)

same_content-fields :
    (i j : IndexFile)
    → same_content i j ≡ ok true
    → (i.path ≡ j.path) × (i.size ≡ j.size) × (i.hash ≡ j.hash)
unfolding same_content
same_content-fields i j h = ground arith

-- An index that is not changed has the file of a current one.
index-same :
    (current : List IndexFile) (i : IndexFile) (o : Option IndexFile)
    → get (index_map current) i.path ≡ o
    → index_changed (index_map current) i ≡ ok false
    → (j : IndexFile) × In j current × (index_file j ≡ index_file i)
unfolding index_changed
index-same current i none e h = absurd (ground arith)
index-same current i (some j) e h =
    let g : (do same ← same_content i j; ok (not same)) ≡ ok false = rw (index_changed, e) at h in
    let (b, h₁, h₂) = >>=-eq-ok (same_content i j) _ g in
    let t : b ≡ true = not-false b (ok-injective (not b) false h₂) in
    let (path, size, hash) = same_content-fields i j (h₁ ∙ ap ok t) in
    elim (In-of_collect (λ x. x.path) [] current i.path j
      (In-of_get (index_map current) i.path j e)) [
        | inl m ↦ absurd m
        | inr (m, _) ↦
            (j, m, λ t. record { path = sym path t; hash = sym hash t; size = sym size t })
      ]

IsIn : IndexFile → List IndexFile → Type 0
IsIn i current = (j : IndexFile) × In j current × (index_file j ≡ index_file i)

-- One turn of the loop over the indexes.
index-turn :
    (x i : IndexFile) (is current : List IndexFile) (changed : Bool) (rest : List CopyOperation)
    → index_changed (index_map current) x ≡ ok changed
    → In i (x ∷ is)
    → (In i is → Copied (index_file i) rest ⊎ IsIn i current)
    → Copied (index_file i) (if changed then index_copy (index_map current) x ∷ rest else rest)
      ⊎ IsIn i current
unfolding index_copy IsIn
index-turn x i is current true rest e (inl same) ih =
    inl (index_copy (index_map current) x, inl refl, ap index_file same)
index-turn x i is current true rest e (inr m) ih = elim (ih m) [
  | inl (o, n, f) ↦ inl (o, inr n, f)
  | inr j ↦ inr j
]
index-turn x i is current false rest e (inl same) ih =
    let (j, m, f) = index-same current x (get (index_map current) x.path) refl e in
    inr (j, m, f ∙ ap index_file same)
index-turn x i is current false rest e (inr m) ih = ih m

-- Every file of the new indexes is copied, or is one of a current index.
pub index-planned :
    (is current : List IndexFile) (ops : List CopyOperation) (i : IndexFile)
    → index_copies (index_map current) is ≡ ok ops
    → In i is
    → Copied (index_file i) ops ⊎ ((j : IndexFile) × In j current × (index_file j ≡ index_file i))
unfolding index_copies IsIn
index-planned [] current ops i h m = absurd m
index-planned (x ∷ is) current ops i h m =
    let (changed, h₁, h₂) = >>=-eq-ok (index_changed (index_map current) x) _ h in
    let (rest, h₃, h₄) = >>=-eq-ok (index_copies (index_map current) is) _ h₂ in
    subst (λ z. Copied (index_file i) z ⊎ IsIn i current) (ok-injective _ _ h₄)
      (index-turn x i is current changed rest h₁ m (λ n. index-planned is current rest i h₃ n))

index-turn_origin :
    (x : IndexFile) (is current : List IndexFile) (changed : Bool) (rest : List CopyOperation)
    (o : CopyOperation)
    → In o (if changed then index_copy (index_map current) x ∷ rest else rest)
    → (In o rest → (i : IndexFile) × In i is × (index_file i ≡ operation_file o))
    → (i : IndexFile) × In i (x ∷ is) × (index_file i ≡ operation_file o)
unfolding index_copy
index-turn_origin x is current true rest o (inl e) ih = (x, inl refl, ap operation_file e)
index-turn_origin x is current true rest o (inr m) ih = let (i, n, f) = ih m in (i, inr n, f)
index-turn_origin x is current false rest o m ih = let (i, n, f) = ih m in (i, inr n, f)

-- Every copy is of a new index.
pub index-origin :
    (is current : List IndexFile) (ops : List CopyOperation) (o : CopyOperation)
    → index_copies (index_map current) is ≡ ok ops
    → In o ops
    → (i : IndexFile) × In i is × (index_file i ≡ operation_file o)
unfolding index_copies
index-origin [] current ops o h m = absurd (subst (In o) (sym (ok-injective [] ops h)) m)
index-origin (x ∷ is) current ops o h m =
    let (changed, h₁, h₂) = >>=-eq-ok (index_changed (index_map current) x) _ h in
    let (rest, h₃, h₄) = >>=-eq-ok (index_copies (index_map current) is) _ h₂ in
    index-turn_origin x is current changed rest o (subst (In o) (sym (ok-injective _ _ h₄)) m)
      (λ n. index-origin is current rest o h₃ n)
