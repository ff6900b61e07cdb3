-- ===== src/Sync/Mirror/Atomic.antt =====
-- `sync_repo_internal` of src/sync.rs writes the stored state in its last step only.
use mathlib.Core.Path.{subst}
use reposync.Base.{
  ◌≡◌, refl, ◌∙◌, ◌⊎◌, inl, inr, false, ◌&&◌, is_empty, List, [], ◌∷◌, Text, text_eq, Bool-cases,
}
use reposync.Base.Outcome.{Outcome, ok, err, panic, IoError}
use reposync.Base.Crates.{Crates, Reader}
use reposync.Config.Data.{GeneralConfig, RepositoryConfig}
use reposync.World.{World, Io, continue, ◌>>=◌}
use reposync.World.Preorder.{IsPreorder, Keeps, Keeps-bind, Keeps-pure, Keeps-lift, SameAt-preorder}
use reposync.World.Bind.{Returns}
use reposync.World.Files.{components, is_below}
use reposync.World.Files.Frame.{content}
use reposync.World.Files.Writes.{SameContent, SameFiles-content}
use reposync.State.{LiveRepoMetadataStore, replace}
use reposync.State.Outside.{live_fetch-outside, live_read-outside, live_new-outside}
use reposync.Fetcher.{Fetcher}
use reposync.Destination.{Destination}
use reposync.Destination.S3.{S3Destination, s3_destination}
use reposync.Destination.S3.Files.{upload-SameContent, delete-SameContent, invalidate-SameContent}
use reposync.Sync.Diff.{DeleteOperation, Plan}
use reposync.Sync.Copy.Steps.{IsQuiet}
use reposync.Sync.Copy.Kept.{copy-Keeps}
use reposync.Sync.Manager.{data_path, tmp_path, delete_all, apply_plan, publish, sync_repo_internal}
use reposync.Sync.Manager.Kept.{
  made, fetch_repository-Keeps, fetch_repository-made, load_current-SameFiles, validate-SameFiles,
}

module _ ⦃lib : Crates⦄ (q : List Text) where
  abbrev P : IsPreorder (SameContent q)
  P = SameAt-preorder (λ w. content w q)

  -- The calls of a destination leave the file at a place alone.
  pub record Spares (d : Destination) : Type 0 where
    pub upload : (path : Text) (r : Reader) → Keeps (SameContent q) (d.upload path r)
    pub delete : (path : Text) → Keeps (SameContent q) (d.delete path)
    pub invalidate : (paths : List Text) → Keeps (SameContent q) (d.invalidate paths)

  pub s3-Spares : (b : S3Destination) → Spares (s3_destination b)
  unfolding s3_destination
  s3-Spares b = record {
    upload = upload-SameContent b q;
    delete = delete-SameContent b q;
    invalidate = invalidate-SameContent b q;
  }

  delete_all-SameContent :
      (d : Destination) (ops : List DeleteOperation)
      → Spares d
      → Keeps (SameContent q) (delete_all d ops)
  unfolding delete_all
  delete_all-SameContent d [] s = Keeps-pure P tt
  delete_all-SameContent d (op ∷ ops) s =
      Keeps-bind P _ _ (s.delete op.path) λ _. delete_all-SameContent d ops s

  apply_plan-SameContent :
      (tmp endpoint : Text) (fetcher : Fetcher) (d : Destination) (plan : Plan)
      → IsQuiet fetcher
      → Spares d
      → Keeps (SameContent q) (apply_plan tmp endpoint fetcher d plan)
  unfolding apply_plan
  apply_plan-SameContent tmp endpoint fetcher d plan quiet s =
      let copies = copy-Keeps P (λ w w' h. h.contents q) d s.upload endpoint fetcher quiet tmp in
      Keeps-bind P _ _ (copies plan.packages_copy) λ packages.
        Keeps-bind P _ _ (copies plan.index_copy) λ indexes. Keeps-bind P _ _ (s.invalidate _) λ _.
          Keeps-bind P _ _ (delete_all-SameContent d plan.packages_delete s)
            λ _. delete_all-SameContent d plan.index_delete s

  -- A run leaves the place alone, or does so up to the replacement, which is its last step.
  pub record UpTo {A : Type 0} (last m : Io A) (w : World) : Type 0 where
    pub at :
        (content (m w).1 q ≡ content w q)
        ⊎ ((u : World) × (content u q ≡ content w q) × (last u ≡ m w))

  UpTo-Keeps : {A : Type 0} (last m : Io A) (w : World) → Keeps (SameContent q) m → UpTo last m w
  UpTo-Keeps last m w h = record { at = inl (h.at w) }

  UpTo-bind :
      {A B : Type 0} (last : Io B) (m : Io A) (f : A → Io B) (w : World)
      → Keeps (SameContent q) m
      → ((a : A) → Returns m w a (m w).1 → UpTo last (f a) (m w).1)
      → UpTo last (m >>= f) w
  unfolding ◌>>=◌
  UpTo-bind {A} {B} last m f w h k = record { at = go (m w).0 refl }
    where
      later :
          (n : Outcome IoError B × World)
          → (content n.1 q ≡ content (m w).1 q)
            ⊎ ((u : World) × (content u q ≡ content (m w).1 q) × (last u ≡ n))
          → (content n.1 q ≡ content w q)
            ⊎ ((u : World) × (content u q ≡ content w q) × (last u ≡ n))
      later n (inl e) = inl (e ∙ h.at w)
      later n (inr (u, e, l)) = inr (u, e ∙ h.at w, l)

      go :
          (r : Outcome IoError A)
          → (m w).0 ≡ r
          → (content (continue r f (m w).1).1 q ≡ content w q)
            ⊎ ((u : World) × (content u q ≡ content w q) × (last u ≡ continue r f (m w).1))
      go (ok a) e = later (f a (m w).1) (k a (λ i. (e i, (m w).1))).at
      go (err x) e = inl (h.at w)
      go panic e = inl (h.at w)

  publish-UpTo :
      (general : GeneralConfig) (repo : RepositoryConfig) (fetcher : Fetcher) (d : Destination)
      (store : LiveRepoMetadataStore) (plan : Plan) (w : World)
      → IsQuiet fetcher
      → Spares d
      → UpTo (replace store (data_path general repo)) (publish general repo fetcher d store plan) w
  unfolding publish
  publish-UpTo general repo fetcher d store plan w quiet s =
      elim (Bool-cases (is_empty plan.packages_copy && is_empty plan.index_copy)) [
        | inl nothing ↦ rw nothing (UpTo-Keeps _ _ w (Keeps-pure P tt))
        | inr some_copies ↦ rw some_copies (
            UpTo-bind _ _ _ w
              (apply_plan-SameContent general.tmp_path repo.source.endpoint fetcher d plan quiet s)
              (λ _ _. record { at = inr (_, refl, refl) }))
      ]

  found-UpTo :
      (general : GeneralConfig) (repo : RepositoryConfig) (fetcher : Fetcher) (d : Destination)
      (store found : LiveRepoMetadataStore) (plan : Plan) (w : World)
      → store ≡ found
      → IsQuiet fetcher
      → Spares d
      → UpTo (replace store (data_path general repo)) (publish general repo fetcher d found plan) w
  found-UpTo general repo fetcher d store found plan w e quiet s =
      subst
        (λ z.
          UpTo (replace store (data_path general repo)) (publish general repo fetcher d z plan) w)
        e (publish-UpTo general repo fetcher d store plan w quiet s)

  -- A synchronisation, whatever its outcome, leaves alone each file that is not below the
  -- temporary directory of the repository and that the calls of the destination spare; or it has
  -- done so up to the replacement of the stored state, which is its last step. So a failure before
  -- this step leaves the stored state as it was.
  pub sync_repo_internal-UpTo :
      (general : GeneralConfig) (fetcher : Fetcher) (d : Destination) (repo : RepositoryConfig)
      (w : World)
      → is_below (components (tmp_path general repo)) q ≡ false
      → IsQuiet fetcher
      → Spares d
      → UpTo
          (replace
            (made repo.source.endpoint (tmp_path general repo) fetcher)
            (data_path general repo))
          (sync_repo_internal general fetcher d repo)
          w
  unfolding sync_repo_internal
  sync_repo_internal-UpTo general fetcher d repo w outside quiet s =
      let directory = tmp_path general repo in
      let url = repo.source.endpoint in
      let store = made url directory fetcher in
      let last = replace store (data_path general repo) in
      UpTo-bind last _ _ w
        (fetch_repository-Keeps P general fetcher repo
          (live_new-outside q url directory fetcher outside)
          (λ path. live_fetch-outside q directory outside url fetcher path quiet)
          (λ path. live_read-outside q directory outside store path))
        λ (new, found) fetched. UpTo-bind last _ _ _ (Keeps-lift P _) λ key _.
          UpTo-bind last _ _ _ (SameFiles-content q (validate-SameFiles key new)) λ _ _.
            UpTo-bind last _ _ _ (SameFiles-content q (load_current-SameFiles general repo))
              λ (current, saved) _. UpTo-bind last _ _ _ (Keeps-lift P _) λ plan _.
                found-UpTo general repo fetcher d store found plan _
                  (fetch_repository-made general fetcher repo w _ new found fetched) quiet s
