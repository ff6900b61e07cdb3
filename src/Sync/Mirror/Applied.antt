-- ===== src/Sync/Mirror/Applied.antt =====
-- `apply_plan`, the part of `sync_repo_internal` of src/sync.rs that writes to the destination.
use mathlib.Core.Path.{subst}
use reposync.Base.{◌≡◌, refl, ◌∙◌, ◌≢◌, ◌⊎◌, inl, inr, List, [], ◌∷◌, ◌++◌, Text}
use reposync.Base.Members.{In}
use reposync.Base.Outcome.{Outcome, ok, err, panic, IoError}
use reposync.Base.Crates.{Crates}
use reposync.World.{World, Io, continue, ◌>>=◌, ◌>>◌}
use reposync.World.Preorder.{Keeps, Keeps-bind, Keeps-pure, SameAt, SameAt-preorder}
use reposync.World.Bind.{Returns, bind-Returns}
use reposync.Fetcher.{Fetcher}
use reposync.Destination.{Destination, IsLawful}
use reposync.Sync.Diff.{CopyOperation, DeleteOperation, Plan}
use reposync.Sync.Files.{FileSpec, operation_file}
use reposync.Sync.Copy.{copy}
use reposync.Sync.Copy.Steps.{IsQuiet}
use reposync.Sync.Copy.Uploaded.{Holds, Agrees, Avoids, copy-SameAt, copy-Holds}
use reposync.Sync.Manager.{delete_all, apply_plan}

module _ ⦃lib : Crates⦄ (d : Destination) (l : IsLawful d) where
  -- No deletion is on a place.
  abbrev pub Spares : List Text → List DeleteOperation → Type 0
  Spares q ops = (o : DeleteOperation) → In o ops → l.locate o.path ≢ q

  delete_all-SameAt :
      (q : List Text) (ops : List DeleteOperation)
      → Spares q ops
      → Keeps (SameAt (λ w. l.view w q)) (delete_all d ops)
  unfolding delete_all
  delete_all-SameAt q [] s = Keeps-pure (SameAt-preorder (λ w. l.view w q)) tt
  delete_all-SameAt q (o ∷ ops) s =
      Keeps-bind (SameAt-preorder (λ w. l.view w q)) _ _
        (record { at = λ w. l.delete_ne o.path w q (s o (inl refl)) })
        λ _. delete_all-SameAt q ops (λ o' m. s o' (inr m))

  -- The invalidation and the deletions.
  abbrev finish : List Text → Plan → Io (Unit {0})
  finish paths plan = do
    d.invalidate paths
    delete_all d plan.packages_delete
    delete_all d plan.index_delete

  finish-SameAt :
      (q : List Text) (paths : List Text) (plan : Plan)
      → Spares q plan.packages_delete
      → Spares q plan.index_delete
      → Keeps (SameAt (λ w. l.view w q)) (finish paths plan)
  finish-SameAt q paths plan s t =
      let P = SameAt-preorder (λ w. l.view w q) in
      Keeps-bind P _ _ (record { at = λ w. l.view-invalidate paths w q })
        λ _.
          Keeps-bind P _ _ (delete_all-SameAt q plan.packages_delete s)
            λ _. delete_all-SameAt q plan.index_delete t

  pub Holds-SameAt :
      (f : FileSpec) (w w' : World)
      → SameAt (λ u. l.view u (l.locate f.path)) w w'
      → Holds d l w f
      → Holds d l w' f
  Holds-SameAt f w w' e (r, c, s, v) = (r, c, s, e ∙ v)

  module _ (tmp_path endpoint : Text) (fetcher : Fetcher) (quiet : IsQuiet fetcher) (plan : Plan)
      (f : FileSpec) where
    -- If it succeeds, it has stored every file that it copies, and has kept every other that it
    -- does not delete.
    pub apply_plan-Holds :
        (w w' : World)
        → Returns (apply_plan tmp_path endpoint fetcher d plan) w tt w'
        → Agrees d l f plan.packages_copy
        → Agrees d l f plan.index_copy
        → Spares (l.locate f.path) plan.packages_delete
        → Spares (l.locate f.path) plan.index_delete
        → Holds d l w f
          ⊎ (((o : CopyOperation) × In o plan.packages_copy × (operation_file o ≡ f))
              ⊎ ((o : CopyOperation) × In o plan.index_copy × (operation_file o ≡ f)))
        → Holds d l w' f
    unfolding apply_plan
    apply_plan-Holds w w' h a b s t before =
        let packages = copy tmp_path endpoint fetcher d plan.packages_copy in
        let indexes = copy tmp_path endpoint fetcher d plan.index_copy in
        let u : World = (packages w).1 in
        let v : World = (indexes u).1 in
        let (pp, h₁, h₂) = bind-Returns packages _ w w' tt h in
        let (ip, h₃, h₄) = bind-Returns indexes _ u w' tt h₂ in
        let stored_package =
          copy-Holds d l endpoint fetcher quiet tmp_path plan.packages_copy f w u pp h₁ a in
        let stored_index =
          copy-Holds d l endpoint fetcher quiet tmp_path plan.index_copy f u v ip h₃ b in
        let kept : Holds d l v f = elim before [
          | inl p ↦ stored_index (inl (stored_package (inl p)))
          | inr (inl p) ↦ stored_index (inl (stored_package (inr p)))
          | inr (inr p) ↦ stored_index (inr p)
        ] in
        subst (λ z. Holds d l z f) (λ i. (h₄ i).1)
          (Holds-SameAt f v _ ((finish-SameAt (l.locate f.path) (pp ++ ip) plan s t).at v) kept)

    -- What follows a first action that leaves one place alone and stores a file when it succeeds.
    stored_or_same :
        (w : World) (q : List Text) (r : Outcome IoError (List Text)) (u : World)
        (k : List Text → Io (Unit {0}))
        → l.view u q ≡ l.view w q
        → ((paths : List Text) → r ≡ ok paths → Holds d l u f)
        → ((paths : List Text) → Keeps (SameAt (λ z. l.view z (l.locate f.path))) (k paths))
        → (l.view (continue r k u).1 q ≡ l.view w q) ⊎ Holds d l (continue r k u).1 f
    stored_or_same w q (ok paths) u k same stored still =
        inr (Holds-SameAt f u _ ((still paths).at u) (stored paths refl))
    stored_or_same w q (err e) u k same stored still = inl same
    stored_or_same w q panic u k same stored still = inl same

    -- A plan is carried out whose copies of packages agree on the place of a package that they copy,
    -- and whose copies of indexes and deletions spare this place, with a fetcher that writes nothing.
    -- Then, whatever the outcome, a place that no package is copied to is as before, or the package
    -- is stored. So no index is replaced before all packages are there.
    pub apply_plan-ordered :
        (w : World) (q : List Text)
        → Avoids d l q plan.packages_copy
        → Agrees d l f plan.packages_copy
        → Avoids d l (l.locate f.path) plan.index_copy
        → Spares (l.locate f.path) plan.packages_delete
        → Spares (l.locate f.path) plan.index_delete
        → (o : CopyOperation) × In o plan.packages_copy × (operation_file o ≡ f)
        → let w' = (apply_plan tmp_path endpoint fetcher d plan w).1 in
          (l.view w' q ≡ l.view w q) ⊎ Holds d l w' f
    unfolding apply_plan ◌>>=◌
    apply_plan-ordered w q avoid a b s t o =
        let packages = copy tmp_path endpoint fetcher d plan.packages_copy in
        let indexes = copy tmp_path endpoint fetcher d plan.index_copy in
        let P = SameAt-preorder (λ z. l.view z (l.locate f.path)) in
        stored_or_same w q (packages w).0 (packages w).1 _
          ((copy-SameAt d l endpoint fetcher quiet tmp_path q plan.packages_copy avoid).at w)
          (λ pp e.
            copy-Holds d l endpoint fetcher quiet tmp_path plan.packages_copy f w (packages w).1 pp
              (λ i. (e i, (packages w).1)) a (inr o))
          (λ pp.
            Keeps-bind P _ _
              (copy-SameAt d l endpoint fetcher quiet tmp_path (l.locate f.path) plan.index_copy b)
              (λ ip. finish-SameAt (l.locate f.path) (pp ++ ip) plan s t))
