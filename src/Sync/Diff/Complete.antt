-- ===== src/Sync/Diff/Complete.antt =====
-- `repo_diff` of src/sync.rs misses no file of the new repository.
use mathlib.Core.Path.{subst}
use reposync.Base.{
  ◌≡◌, sym, ◌∙◌, ap, ◌⊎◌, inl, inr, List, [], ◌∷◌, ◌++◌, map, find, ◌==◌, unwrap_or, Bool-cases,
}
use reposync.Base.Members.{
  In, In-append_left, In-append_right, In-append, In-map, In-of_map, contains_of_In, In-of_contains,
}
use reposync.Base.Outcome.{ok, >>=-eq-ok, ok-injective}
use reposync.Packages.{
  Package, IndexFile, Collection, Repository, Target, empty_collection, target_eq,
}
use reposync.Sync.Diff.{
  CopyOperation, Plan, index_copies, index_map, collection_diff, current_collection,
  collections_diff, append_plan, repo_diff, deduplicate_list, copy_eq,
}
use reposync.Sync.Diff.Dedup.{deduplicate_list-contains}
use reposync.Sync.Diff.Planned.{
  Copied, IsConsistent, package_copies, package-planned, package-origin, index-planned,
  index-origin,
}
use reposync.Sync.Files.{
  FileSpec, package_file, index_file, operation_file, collection_files, all_files, repository_files,
}

-- A file is copied by a plan, as a package or as an index.
abbrev pub IsCopied : FileSpec → Plan → Type 0
IsCopied f plan = Copied f plan.packages_copy ⊎ Copied f plan.index_copy

-- The copies of a plan are of given files.
abbrev pub IsOf : List FileSpec → Plan → Type 0
IsOf fs plan =
    (o : CopyOperation) → In o plan.packages_copy ⊎ In o plan.index_copy → In (operation_file o) fs

module _ (c current : Collection) (plan : Plan) (h : collection_diff c current ≡ ok plan) where
  collection-package :
      (p : Package)
      → In p c.packages
      → IsConsistent (collection_files c)
      → Copied (package_file p) plan.packages_copy ⊎ In (package_file p) (collection_files current)
  unfolding collection_diff package_copies
  collection-package p m same =
      let (copies, h₁, h₂) = >>=-eq-ok (index_copies (index_map current.indexes) c.indexes) _ h in
      let e : package_copies c.packages current.packages ≡ plan.packages_copy =
        ap (λ (z : Plan). z.packages_copy) (ok-injective _ _ h₂) in
      elim (package-planned c.packages current.packages p m (λ q n path.
        same (package_file q) (package_file p)
          (In-append_left _ _ _ (In-map package_file q c.packages n))
          (In-append_left _ _ _ (In-map package_file p c.packages m)) path)) [
            | inl (o, n, f) ↦ inl (o, subst (In o) e n, f)
            | inr (q, n, f) ↦ inr (
                subst (λ z. In z (collection_files current)) f
                  (In-append_left _ _ _ (In-map package_file q current.packages n)))
          ]

  collection-index :
      (i : IndexFile)
      → In i c.indexes
      → Copied (index_file i) plan.index_copy ⊎ In (index_file i) (collection_files current)
  unfolding collection_diff
  collection-index i m =
      let (copies, h₁, h₂) = >>=-eq-ok (index_copies (index_map current.indexes) c.indexes) _ h in
      let e : copies ≡ plan.index_copy = ap (λ (z : Plan). z.index_copy) (ok-injective _ _ h₂) in
      elim (index-planned c.indexes current.indexes copies i h₁ m) [
        | inl (o, n, f) ↦ inl (o, subst (In o) e n, f)
        | inr (j, n, f) ↦ inr (
            subst (λ z. In z (collection_files current)) f
              (In-append_right _ (map package_file current.packages) _
                (In-map index_file j current.indexes n)))
      ]

  collection-IsCopied :
      (f : FileSpec)
      → In f (collection_files c)
      → IsConsistent (collection_files c)
      → IsCopied f plan ⊎ In f (collection_files current)
  collection-IsCopied f m same = elim (In-append f (map package_file c.packages) _ m) [
    | inl n ↦
        (let (p, k, e) = In-of_map package_file f c.packages n in
          subst (λ z. IsCopied z plan ⊎ In z (collection_files current)) e
            (elim (collection-package p k same) [ inl x ↦ inl (inl x) | inr x ↦ inr x ]))
    | inr n ↦
        (let (i, k, e) = In-of_map index_file f c.indexes n in
          subst (λ z. IsCopied z plan ⊎ In z (collection_files current)) e
            (elim (collection-index i k) [ inl x ↦ inl (inr x) | inr x ↦ inr x ]))
  ]

  collection-IsOf : IsOf (collection_files c) plan
  unfolding collection_diff package_copies
  collection-IsOf o (inl m) =
      let (copies, h₁, h₂) = >>=-eq-ok (index_copies (index_map current.indexes) c.indexes) _ h in
      let e : plan.packages_copy ≡ package_copies c.packages current.packages =
        sym (ap (λ (z : Plan). z.packages_copy) (ok-injective _ _ h₂)) in
      let (p, n, f) = package-origin c.packages current.packages o (subst (In o) e m) in
      subst (λ z. In z (collection_files c)) f
        (In-append_left _ _ _ (In-map package_file p c.packages n))
  collection-IsOf o (inr m) =
      let (copies, h₁, h₂) = >>=-eq-ok (index_copies (index_map current.indexes) c.indexes) _ h in
      let e : plan.index_copy ≡ copies =
        sym (ap (λ (z : Plan). z.index_copy) (ok-injective _ _ h₂)) in
      let (i, n, f) = index-origin c.indexes current.indexes copies o h₁ (subst (In o) e m) in
      subst (λ z. In z (collection_files c)) f
        (In-append_right _ (map package_file c.packages) _ (In-map index_file i c.indexes n))

-- The collection that a new one is compared with is in the current repository, or empty.
current_files :
    (current : Repository) (t : Target) (f : FileSpec)
    → In f (collection_files (current_collection current t))
    → In f (repository_files current)
unfolding current_collection
current_files current t f m = found current.collections m
  where
    found :
        (cs : List Collection)
        → In f (collection_files (unwrap_or (find (λ x. x.target == t) cs) (empty_collection t)))
        → In f (all_files cs)
    found [] n = absurd n
    found (c ∷ cs) n = elim (Bool-cases (c.target == t)) [
      | inl same ↦ In-append_left f (collection_files c) (all_files cs) (rw same at n)
      | inr other ↦ In-append_right f (collection_files c) (all_files cs) (found cs (rw other at n))
    ]

IsCopied-left : (f : FileSpec) (a b : Plan) → IsCopied f a → IsCopied f (append_plan a b)
IsCopied-left f a b (inl (o, m, e)) = inl (o, In-append_left o _ _ m, e)
IsCopied-left f a b (inr (o, m, e)) = inr (o, In-append_left o _ _ m, e)

IsCopied-right : (f : FileSpec) (a b : Plan) → IsCopied f b → IsCopied f (append_plan a b)
IsCopied-right f a b (inl (o, m, e)) = inl (o, In-append_right o a.packages_copy _ m, e)
IsCopied-right f a b (inr (o, m, e)) = inr (o, In-append_right o a.index_copy _ m, e)

collections-IsCopied :
    (current : Repository) (cs : List Collection) (plan : Plan) (f : FileSpec)
    → collections_diff current cs ≡ ok plan
    → IsConsistent (all_files cs)
    → In f (all_files cs)
    → IsCopied f plan ⊎ In f (repository_files current)
unfolding collections_diff
collections-IsCopied current [] plan f h same m = absurd m
collections-IsCopied current (c ∷ cs) plan f h same m =
    let old = current_collection current c.target in
    let (a, h₁, h₂) = >>=-eq-ok (collection_diff c old) _ h in
    let (b, h₃, h₄) = >>=-eq-ok (collections_diff current cs) _ h₂ in
    subst (λ z. IsCopied f z ⊎ In f (repository_files current)) (ok-injective _ _ h₄)
      (elim (In-append f (collection_files c) (all_files cs) m) [
        | inl n ↦
            elim (collection-IsCopied c old a h₁ f n
              (λ x y p q. same x y (In-append_left x _ _ p) (In-append_left y _ _ q))) [
                | inl k ↦ inl (IsCopied-left f a b k)
                | inr k ↦ inr (current_files current c.target f k)
              ]
        | inr n ↦
            elim (collections-IsCopied current cs b f h₃
              (λ x y p q.
                same x y (In-append_right x (collection_files c) _ p)
                  (In-append_right y (collection_files c) _ q))
              n) [ inl k ↦ inl (IsCopied-right f a b k) | inr k ↦ inr k ]
      ])

IsOf-append :
    (xs ys : List FileSpec) (a b : Plan) → IsOf xs a → IsOf ys b → IsOf (xs ++ ys) (append_plan a b)
IsOf-append xs ys a b h k o (inl m) = elim (In-append o a.packages_copy b.packages_copy m) [
  | inl n ↦ In-append_left _ xs ys (h o (inl n))
  | inr n ↦ In-append_right _ xs ys (k o (inl n))
]
IsOf-append xs ys a b h k o (inr m) = elim (In-append o a.index_copy b.index_copy m) [
  | inl n ↦ In-append_left _ xs ys (h o (inr n))
  | inr n ↦ In-append_right _ xs ys (k o (inr n))
]

collections-IsOf :
    (current : Repository) (cs : List Collection) (plan : Plan)
    → collections_diff current cs ≡ ok plan
    → IsOf (all_files cs) plan
unfolding collections_diff
collections-IsOf current [] plan h =
    subst (IsOf []) (ok-injective _ _ h) (λ o m. elim m [ inl n ↦ absurd n | inr n ↦ absurd n ])
collections-IsOf current (c ∷ cs) plan h =
    let old = current_collection current c.target in
    let (a, h₁, h₂) = >>=-eq-ok (collection_diff c old) _ h in
    let (b, h₃, h₄) = >>=-eq-ok (collections_diff current cs) _ h₂ in
    subst (IsOf (all_files (c ∷ cs))) (ok-injective _ _ h₄) (
      IsOf-append (collection_files c) (all_files cs) a b (collection-IsOf c old a h₁)
        (collections-IsOf current cs b h₃))

dedup-In : (o : CopyOperation) (ops : List CopyOperation) → In o ops → In o (deduplicate_list ops)
dedup-In o ops m = In-of_contains o _ (deduplicate_list-contains ops o ∙ contains_of_In o ops m)

In-dedup : (o : CopyOperation) (ops : List CopyOperation) → In o (deduplicate_list ops) → In o ops
In-dedup o ops m = In-of_contains o _ (sym (deduplicate_list-contains ops o) ∙ contains_of_In o _ m)

module _ (new current : Repository) (plan : Plan) (h : repo_diff new current ≡ ok plan) where
  -- If a plan is made, every file of the new repository is copied by it, or is a file of the current
  -- one, provided that two files of the new repository with one path are the same.
  pub repo_diff-IsCopied :
      (f : FileSpec)
      → IsConsistent (repository_files new)
      → In f (repository_files new)
      → IsCopied f plan ⊎ In f (repository_files current)
  unfolding repo_diff
  repo_diff-IsCopied f same m =
      let (p, h₁, h₂) = >>=-eq-ok (collections_diff current new.collections) _ h in
      subst (λ z. IsCopied f z ⊎ In f (repository_files current)) (ok-injective _ _ h₂)
        (elim (collections-IsCopied current new.collections p f h₁ same m) [
          | inl (inl (o, n, e)) ↦ inl (inl (o, dedup-In o _ n, e))
          | inl (inr (o, n, e)) ↦ inl (inr (o, dedup-In o _ n, e))
          | inr n ↦ inr n
        ])

  -- Only files of the new repository are copied.
  pub repo_diff-IsOf :
      (o : CopyOperation)
      → In o plan.packages_copy ⊎ In o plan.index_copy
      → In (operation_file o) (repository_files new)
  unfolding repo_diff
  repo_diff-IsOf =
      let (p, h₁, h₂) = >>=-eq-ok (collections_diff current new.collections) _ h in
      subst (IsOf (repository_files new)) (ok-injective _ _ h₂) (λ o m.
        collections-IsOf current new.collections p h₁ o
          (elim m [ inl n ↦ inl (In-dedup o _ n) | inr n ↦ inr (In-dedup o _ n) ]))
