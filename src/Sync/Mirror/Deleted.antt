-- ===== src/Sync/Mirror/Deleted.antt =====
-- The deletions of `sync_repo_internal` of src/sync.rs.
use mathlib.Core.Path.{subst}
use reposync.Base.{
  ◌≡◌, refl, ◌∙◌, ap, ◌⊎◌, inl, inr, none, List, [], ◌∷◌, ◌++◌, Text, texts-discrete,
}
use reposync.Base.Members.{In}
use reposync.Base.Outcome.{ok}
use reposync.Base.Crates.{Crates}
use reposync.World.{World}
use reposync.World.Bind.{Returns, bind-Returns, pure-Returns}
use reposync.Fetcher.{Fetcher}
use reposync.Destination.{Destination, IsLawful}
use reposync.Sync.Diff.{DeleteOperation, Plan, current_collection, repo_diff}
use reposync.Sync.Diff.Dropped.{IsDropped, repo_diff-IsDroppedBy}
use reposync.Packages.{Collection, Repository}
use reposync.Sync.Copy.{copy}
use reposync.Sync.Manager.{delete_all, apply_plan}

module _ ⦃lib : Crates⦄ (d : Destination) (l : IsLawful d) where
  abbrev IsGone : World → List Text → Type 0
  IsGone w q = l.view w q ≡ none

  -- A deletion that succeeds empties its place, and fills no other.
  delete-IsGone :
      (o : DeleteOperation) (q : List Text) (w w' : World)
      → Returns (d.delete o.path) w tt w'
      → IsGone w q ⊎ (l.locate o.path ≡ q)
      → IsGone w' q
  delete-IsGone o q w w' h before =
      subst (λ z. IsGone z q) (λ i. (h i).1)
        (elim (texts-discrete (l.locate o.path) q) [
          | yes e ↦ subst (IsGone (d.delete o.path w).1) e (l.delete_ok o.path w (λ i. (h i).0))
          | no n ↦ elim before [ inl g ↦ l.delete_ne o.path w q n ∙ g | inr e ↦ absurd (n e) ]
        ])

  delete_all-IsGone :
      (ops : List DeleteOperation) (q : List Text) (w w' : World)
      → Returns (delete_all d ops) w tt w'
      → IsGone w q ⊎ ((o : DeleteOperation) × In o ops × (l.locate o.path ≡ q))
      → IsGone w' q
  unfolding delete_all
  delete_all-IsGone [] q w w' h (inl g) = subst (λ z. IsGone z q) (pure-Returns tt tt w w' h).1 g
  delete_all-IsGone [] q w w' h (inr (o, m, e)) = absurd m
  delete_all-IsGone (x ∷ ops) q w w' h before =
      let u : World = (d.delete x.path w).1 in
      let (_, h₁, h₂) = bind-Returns (d.delete x.path) _ w w' tt h in
      delete_all-IsGone ops q u w' h₂ (elim before [
        | inl g ↦ inl (delete-IsGone x q w u h₁ (inl g))
        | inr (o, inl e, p) ↦
            inl
              (delete-IsGone x q w u h₁ (inr (ap (λ (z : DeleteOperation). l.locate z.path) e ∙ p)))
        | inr (o, inr m, p) ↦ inr (o, m, p)
      ])

  -- After a success, nothing is served at the place of any deletion.
  pub apply_plan-IsGone :
      (tmp_path endpoint : Text) (fetcher : Fetcher) (plan : Plan) (o : DeleteOperation)
      (w w' : World)
      → Returns (apply_plan tmp_path endpoint fetcher d plan) w tt w'
      → In o plan.packages_delete ⊎ In o plan.index_delete
      → l.view w' (l.locate o.path) ≡ none
  unfolding apply_plan
  apply_plan-IsGone tmp_path endpoint fetcher plan o w w' h m =
      let packages = copy tmp_path endpoint fetcher d plan.packages_copy in
      let indexes = copy tmp_path endpoint fetcher d plan.index_copy in
      let u : World = (packages w).1 in
      let v : World = (indexes u).1 in
      let (pp, _, h₁) = bind-Returns packages _ w w' tt h in
      let (ip, _, h₂) = bind-Returns indexes _ u w' tt h₁ in
      let (_, _, h₃) = bind-Returns (d.invalidate (pp ++ ip)) _ v w' tt h₂ in
      let x : World = (d.invalidate (pp ++ ip) v).1 in
      let y : World = (delete_all d plan.packages_delete x).1 in
      let (_, h₄, h₅) = bind-Returns (delete_all d plan.packages_delete) _ x w' tt h₃ in
      delete_all-IsGone plan.index_delete (l.locate o.path) y w' h₅ (elim m [
        | inl n ↦
            inl (delete_all-IsGone plan.packages_delete (l.locate o.path) x y h₄ (inr (o, n, refl)))
        | inr n ↦ inr (o, n, refl)
      ])

  -- A path that a collection of the new repository drops is not served after a success, whatever
  -- other collections of the new repository say of it.
  pub apply_plan-dropped :
      (tmp_path endpoint : Text) (fetcher : Fetcher) (new current : Repository) (plan : Plan)
      (path : Text) (c : Collection) (w w' : World)
      → repo_diff new current ≡ ok plan
      → In c new.collections
      → IsDropped c.packages (current_collection current c.target).packages path
      → Returns (apply_plan tmp_path endpoint fetcher d plan) w tt w'
      → l.view w' (l.locate path) ≡ none
  apply_plan-dropped tmp_path endpoint fetcher new current plan path c w w' diff m dropped h =
      let o : DeleteOperation = record { path = path } in
      apply_plan-IsGone tmp_path endpoint fetcher plan o w w' h
        (inl ((repo_diff-IsDroppedBy new current plan o diff).1 (c, m, dropped)))
