-- ===== src/Sync/Diff/Dropped.antt =====
-- What `repo_diff` of src/sync.rs deletes.
use mathlib.Core.Path.{subst}
use reposync.Base.{
  All, ◌≡◌, refl, sym, ◌∙◌, ap, ◌≢◌, inl, inr, ◌↔◌, Bool, true, false, not, none, some, List, [],
  ◌∷◌, ◌++◌, map, Text, filter, is_some, Option-cases, arith,
}
use reposync.Base.Members.{
  In, All-of_In, All-In, In-append_left, In-append_right, In-append, In-filter, In-of_filter,
  In-map, In-of_map, contains_of_In, In-of_contains,
}
use reposync.Base.Dict.{get}
use reposync.Base.Outcome.{ok, >>=-eq-ok, ok-injective}
use reposync.Packages.{Package, Collection, Repository}
use reposync.Sync.Diff.{
  DeleteOperation, Plan, package_unused, package_delete, index_copies, index_map, package_map,
  collection_diff, current_collection, collections_diff, repo_diff, deduplicate_list, delete_eq,
}
use reposync.Sync.Diff.Maps.{In-of_get, In-of_collect, get-collect}
use reposync.Sync.Diff.Dedup.{deduplicate_list-contains}

-- A path of an old package that no new package has.
pub record IsDropped (new old : List Package) (path : Text) : Type 0 where
  pub witness : Package
  pub was_old : In witness old
  pub has_path : witness.path ≡ path
  pub not_new : All (λ q. q.path ≢ path) new

package_deletes : List Package → List Package → List DeleteOperation
unfolding package_unused package_delete
package_deletes new old =
    map package_delete (filter (package_unused (package_map new)) (package_map old))

unused-none :
    (new : List Package) (k : Text)
    → ((q : Package) → In q new → q.path ≢ k)
    → get (package_map new) k ≡ none
unused-none new k h = elim (Option-cases (get (package_map new) k)) [
  | inl e ↦ e
  | inr (q, e) ↦ elim (In-of_collect (λ x. x.path) [] new k q (In-of_get (package_map new) k q e)) [
    | inl m ↦ absurd m
    | inr (m, p) ↦ absurd (h q m p)
  ]
]

none-unused :
    (new : List Package) (k : Text) (q : Package)
    → is_some (get (package_map new) k) ≡ false
    → In q new
    → q.path ≢ k
none-unused new k q h m p =
    let (v, g) = get-collect (λ x. x.path) [] new q m in
    let g' : get (package_map new) k ≡ some v = rw p at g in ground arith

not-not : (b : Bool) → not b ≡ true → b ≡ false
not-not true h = absurd (ground arith)
not-not false h = refl

module _ (new old : List Package) where
  IsDropped-of_In :
      (o : DeleteOperation) → In o (package_deletes new old) → IsDropped new old o.path
  unfolding package_deletes package_unused package_delete
  IsDropped-of_In o m =
      let ((k, p), n, e) = In-of_map package_delete o _ m in
      let (n', u) = In-of_filter (package_unused (package_map new)) (k, p) (package_map old) n in
      elim (In-of_collect (λ x. x.path) [] old k p n') [
        | inl z ↦ absurd z
        | inr (old_p, path) ↦
            (let same : p.path ≡ o.path = ap (λ (z : DeleteOperation). z.path) e in
              record {
                witness = p;
                was_old = old_p;
                has_path = same;
                not_new =
                    All-of_In _ _
                      λ q i h. none-unused new k q (not-not _ u) i (h ∙ sym same ∙ path);
              })
      ]

  In-of_IsDropped :
      (o : DeleteOperation) → IsDropped new old o.path → In o (package_deletes new old)
  unfolding package_deletes package_unused package_delete
  In-of_IsDropped o dropped =
      let (v, g) = get-collect (λ x. x.path) [] old dropped.witness dropped.was_old in
      let k = dropped.witness.path in
      let entry = In-of_get (package_map old) k v g in
      elim (In-of_collect (λ x. x.path) [] old k v entry) [
        | inl z ↦ absurd z
        | inr (_, path) ↦
            (let unused =
                unused-none new k
                  (λ q m h. All-In _ _ dropped.not_new q m (h ∙ dropped.has_path)) in
              subst (λ z. In z (package_deletes new old))
                (λ i. record { path = (path ∙ dropped.has_path) i })
                (In-map package_delete (k, v) _
                  (In-filter (package_unused (package_map new)) (k, v) (package_map old) entry
                    (ap (λ z. not (is_some z)) unused))))
      ]

-- A collection of the new repository that drops a path of the current one.
IsDroppedBy : List Collection → Repository → Text → Type 0
IsDroppedBy cs current path =
    (c : Collection) × In c cs
    × IsDropped c.packages (current_collection current c.target).packages path

collection-deletes :
    (c old : Collection) (plan : Plan)
    → collection_diff c old ≡ ok plan
    → plan.packages_delete ≡ package_deletes c.packages old.packages
unfolding collection_diff package_deletes
collection-deletes c old plan h =
    let (copies, h₁, h₂) = >>=-eq-ok (index_copies (index_map old.indexes) c.indexes) _ h in
    sym (ap (λ (z : Plan). z.packages_delete) (ok-injective _ _ h₂))

collections-deletes :
    (current : Repository) (cs : List Collection) (plan : Plan) (o : DeleteOperation)
    → collections_diff current cs ≡ ok plan
    → In o plan.packages_delete ↔ IsDroppedBy cs current o.path
unfolding collections_diff IsDroppedBy
collections-deletes current [] plan o h =
    let e : plan.packages_delete ≡ [] =
      sym (ap (λ (z : Plan). z.packages_delete) (ok-injective _ _ h)) in
    (λ m. absurd (subst (In o) e m), λ x. absurd x.1)
collections-deletes current (c ∷ cs) plan o h =
    let old = current_collection current c.target in
    let (a, h₁, h₂) = >>=-eq-ok (collection_diff c old) _ h in
    let (b, h₃, h₄) = >>=-eq-ok (collections_diff current cs) _ h₂ in
    let e : plan.packages_delete ≡ a.packages_delete ++ b.packages_delete =
      sym (ap (λ (z : Plan). z.packages_delete) (ok-injective _ _ h₄)) in
    let first = collection-deletes c old a h₁ in
    let rest = collections-deletes current cs b o h₃ in
    (
      λ m. elim (In-append o a.packages_delete _ (subst (In o) e m)) [
        | inl n ↦ (c, inl refl, IsDropped-of_In c.packages old.packages o (subst (In o) first n))
        | inr n ↦ (let (c', k, x) = rest.0 n in (c', inr k, x))
      ],
      λ x. subst (In o) (sym e) (dropped_first o c cs a b first rest x),
    )
  where
    dropped_first :
        (o : DeleteOperation) (c : Collection) (cs : List Collection) (a b : Plan)
        → a.packages_delete
          ≡ package_deletes c.packages (current_collection current c.target).packages
        → (In o b.packages_delete ↔ IsDroppedBy cs current o.path)
        → IsDroppedBy (c ∷ cs) current o.path
        → In o (a.packages_delete ++ b.packages_delete)
    dropped_first o c cs a b first rest (c', inl e, x) =
        In-append_left o a.packages_delete b.packages_delete (
          subst (In o) (sym first) (
            In-of_IsDropped c.packages (current_collection current c.target).packages o (
              subst
                (λ z. IsDropped z.packages (current_collection current z.target).packages o.path)
                (sym e) x)))
    dropped_first o c cs a b first rest (c', inr m, x) =
        In-append_right o a.packages_delete b.packages_delete (rest.1 (c', m, x))

-- A package is deleted exactly if some collection of the new repository has no package of its
-- path, and the current collection of the same target has. So a path that one collection drops is
-- deleted though another collection of the new repository still has it.
pub repo_diff-IsDroppedBy :
    (new current : Repository) (plan : Plan) (o : DeleteOperation)
    → repo_diff new current ≡ ok plan
    → In o plan.packages_delete ↔ (
        (c : Collection) × In c new.collections
        × IsDropped c.packages (current_collection current c.target).packages o.path)
unfolding repo_diff IsDroppedBy
repo_diff-IsDroppedBy new current plan o h =
    let (p, h₁, h₂) = >>=-eq-ok (collections_diff current new.collections) _ h in
    let e : plan.packages_delete ≡ deduplicate_list p.packages_delete =
      sym (ap (λ (z : Plan). z.packages_delete) (ok-injective _ _ h₂)) in
    let (to, from) = collections-deletes current new.collections p o h₁ in
    (
      λ m. to (
          In-of_contains o _ (
            sym (deduplicate_list-contains p.packages_delete o)
            ∙ contains_of_In o _ (subst (In o) e m))),
      λ x. subst (In o) (sym e) (
          In-of_contains o _
            (deduplicate_list-contains p.packages_delete o ∙ contains_of_In o _ (from x))),
    )
