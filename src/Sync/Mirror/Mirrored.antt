-- ===== src/Sync/Mirror/Mirrored.antt =====
-- `publish`, the end of `sync_repo_internal` of src/sync.rs: a synchronisation that succeeds has
-- mirrored the new repository.
use mathlib.Core.Path.{subst}
use reposync.Base.{
  All, ◌≡◌, ap, inl, inr, true, ◌&&◌, List, [], ◌∷◌, Text, is_empty, arith, Bool-cases,
}
use reposync.Base.Members.{In, All-of_In, All-In}
use reposync.Base.Outcome.{ok}
use reposync.Base.Crates.{Crates}
use reposync.Config.Data.{GeneralConfig, RepositoryConfig}
use reposync.Packages.{Repository}
use reposync.World.{World}
use reposync.World.Preorder.{Keeps, SameAt}
use reposync.World.Bind.{Returns, bind-Returns, pure-Returns}
use reposync.State.{LiveRepoMetadataStore, replace}
use reposync.Fetcher.{Fetcher}
use reposync.Destination.{Destination, IsLawful}
use reposync.Sync.Diff.{CopyOperation, Plan, repo_diff}
use reposync.Sync.Diff.Planned.{IsConsistent}
use reposync.Sync.Diff.Complete.{repo_diff-IsCopied, repo_diff-IsOf}
use reposync.Sync.Files.{FileSpec, operation_file, repository_files}
use reposync.Sync.Copy.Steps.{IsQuiet}
use reposync.Sync.Copy.Uploaded.{Holds, Agrees}
use reposync.Sync.Manager.{apply_plan, publish, data_path}
use reposync.Sync.Mirror.Applied.{Spares, Holds-SameAt, apply_plan-Holds}

module _ ⦃lib : Crates⦄ (d : Destination) (l : IsLawful d) where
  -- Files on one place are the same file.
  abbrev pub HasPlaces : List FileSpec → Type 0
  HasPlaces fs =
      (f g : FileSpec)
      → In f fs
      → In g fs
      → l.locate f.path ≡ l.locate g.path
      → (f.hash ≡ g.hash) × (f.size ≡ g.size)

  -- No file of the list is on the place of a deletion.
  abbrev pub SparesAll : List FileSpec → Plan → Type 0
  SparesAll fs plan =
      (f : FileSpec)
      → In f fs
      → Spares d l (l.locate f.path) plan.packages_delete
        × Spares d l (l.locate f.path) plan.index_delete

  -- All files of the list are served.
  abbrev pub HoldsAll : World → List FileSpec → Type 0
  HoldsAll w fs = All (Holds d l w) fs

  pub HasPlaces-IsConsistent : (fs : List FileSpec) → HasPlaces fs → IsConsistent fs
  HasPlaces-IsConsistent fs h f g m n e =
      let (hash, size) = h f g m n (ap l.locate e) in
      λ i. record { path = e i; hash = hash i; size = size i }

  module _ (new current : Repository) (plan : Plan) (diff : repo_diff new current ≡ ok plan)
      (places : HasPlaces (repository_files new)) (fetcher : Fetcher)
      (quiet : IsQuiet fetcher) where
    plan-Agrees :
        (f : FileSpec)
        → In f (repository_files new)
        → Agrees d l f plan.packages_copy × Agrees d l f plan.index_copy
    plan-Agrees f m = (
      λ o n e. places (operation_file o) f (repo_diff-IsOf new current plan diff o (inl n)) m e,
      λ o n e. places (operation_file o) f (repo_diff-IsOf new current plan diff o (inr n)) m e,
    )

    -- The plan that `repo_diff` makes, once it is carried out, turns a mirror of the current
    -- repository into a mirror of the new one.
    pub apply_plan-HoldsAll :
        (tmp_path endpoint : Text) (w w' : World)
        → SparesAll (repository_files new) plan
        → HoldsAll w (repository_files current)
        → Returns (apply_plan tmp_path endpoint fetcher d plan) w tt w'
        → HoldsAll w' (repository_files new)
    apply_plan-HoldsAll tmp_path endpoint w w' spared before h = All-of_In _ _ λ f m.
        let (a, b) = plan-Agrees f m in
        let (s, t) = spared f m in
        apply_plan-Holds d l tmp_path endpoint fetcher quiet plan f w w' h a b s t
          (elim (repo_diff-IsCopied new current plan diff f (HasPlaces-IsConsistent _ places) m) [
            | inl c ↦ inr c
            | inr n ↦ inl (All-In _ _ before f n)
          ])

    -- With nothing to copy, the mirror of the current repository has all files of the new one.
    empty-HoldsAll :
        (w : World)
        → (is_empty plan.packages_copy && is_empty plan.index_copy) ≡ true
        → HoldsAll w (repository_files current)
        → HoldsAll w (repository_files new)
    empty-HoldsAll w e before = All-of_In _ _ λ f m.
        elim (repo_diff-IsCopied new current plan diff f (HasPlaces-IsConsistent _ places) m) [
          | inr n ↦ All-In _ _ before f n
          | inl (inl (o, n, _)) ↦ absurd (no-member plan.packages_copy o (ground arith) n)
          | inl (inr (o, n, _)) ↦ absurd (no-member plan.index_copy o (ground arith) n)
        ]
      where
        no-member :
            (ops : List CopyOperation) (o : CopyOperation) → is_empty ops ≡ true → In o ops → ⊥
        no-member [] o h k = k
        no-member (x ∷ ops) o h k = ground arith

    -- At every lawful destination, a publication that ends well has mirrored the new repository, also
    -- by the early return. It must start from a mirror of the current one; the fetcher writes nothing,
    -- files on one place agree, no deletion is on the place of a new file, and the replacement of the
    -- stored state leaves the destination alone.
    pub publish-HoldsAll :
        (general : GeneralConfig) (repo : RepositoryConfig) (store : LiveRepoMetadataStore)
        (w w' : World)
        → SparesAll (repository_files new) plan
        → ((p : Text)
            → Keeps (SameAt (λ u. l.view u (l.locate p))) (replace store (data_path general repo)))
        → HoldsAll w (repository_files current)
        → Returns (publish general repo fetcher d store plan) w tt w'
        → HoldsAll w' (repository_files new)
    unfolding publish
    publish-HoldsAll general repo store w w' spared apart before h =
        elim (Bool-cases (is_empty plan.packages_copy && is_empty plan.index_copy)) [
          | inl e ↦
              subst (λ z. HoldsAll z (repository_files new)) (pure-Returns tt tt w w' (rw e at h)).1
                (empty-HoldsAll w e before)
          | inr e ↦
              (let apply = apply_plan general.tmp_path repo.source.endpoint fetcher d plan in
                let u : World = (apply w).1 in
                let (_, h₁, h₂) = bind-Returns apply _ w w' tt (rw e at h) in
                All-of_In _ _ λ f m.
                  subst (λ z. Holds d l z f) (λ i. (h₂ i).1)
                    (Holds-SameAt d l f u _ ((apart f.path).at u) (
                      All-In _ _
                        (apply_plan-HoldsAll general.tmp_path repo.source.endpoint w u spared before
                          h₁)
                        f m)))
        ]
