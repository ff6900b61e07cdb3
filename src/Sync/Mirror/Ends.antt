-- ===== src/Sync/Mirror/Ends.antt =====
-- `sync_repo_internal` of src/sync.rs, from the download of the indexes to the replacement of the
-- stored state, at any lawful destination.
use mathlib.Core.Path.{subst}
use reposync.Base.{All-map, ◌≡◌, sym, ◌∙◌, Option, Text}
use reposync.Base.Outcome.{ok}
use reposync.Base.Crates.{Crates}
use reposync.Config.Data.{GeneralConfig, RepositoryConfig}
use reposync.Config.Load.{parse_public_key}
use reposync.Packages.{Repository}
use reposync.World.{World, Io, lift, continue, ◌>>=◌}
use reposync.World.Preorder.{Keeps, SameAt}
use reposync.World.Bind.{Returns, bind-Returns}
use reposync.World.Files.Frame.{SameFiles}
use reposync.State.{LiveRepoMetadataStore, SavedRepoMetadataStore, replace}
use reposync.Fetcher.{Fetcher}
use reposync.Destination.{Destination, IsLawful}
use reposync.Sync.Diff.{Plan, repo_diff}
use reposync.Sync.Copy.Steps.{IsQuiet}
use reposync.Sync.Copy.Uploaded.{Holds}
use reposync.Sync.Files.{repository_files}
use reposync.Sync.Manager.{
  load_current, fetch_repository, data_path, validate, publish, sync_repo_internal,
}
use reposync.Sync.Manager.Kept.{load_current-SameFiles, validate-SameFiles}
use reposync.Sync.Mirror.Applied.{Holds-SameAt}
use reposync.Sync.Mirror.Mirrored.{HasPlaces, SparesAll, HoldsAll, publish-HoldsAll}

-- The step of a sequence whose first part is known.
bind-step :
    {A B : Type 0} (m : Io A) (f : A → Io B) (w u : World) (a : A)
    → Returns m w a u
    → (m >>= f) w ≡ f a u
unfolding ◌>>=◌
bind-step m f w u a h = λ i. continue (h i).0 f (h i).1

Returns-Keeps :
    {A : Type 0} (R : World → World → Type 0) (m : Io A) (w u : World) (a : A)
    → Keeps R m
    → Returns m w a u
    → R w u
Returns-Keeps R m w u a k h = subst (R w) (λ i. (h i).1) (k.at w)

module _ ⦃lib : Crates⦄ (d : Destination) (l : IsLawful d) where
  -- The place of a path stays as it is.
  abbrev pub SamePlace : Text → World → World → Type 0
  SamePlace p = SameAt (λ u. l.view u (l.locate p))

  -- What a synchronisation goes through before it publishes: the indexes are downloaded, their
  -- signatures validated, the current state is loaded, and the two are compared.
  pub record Passes (general : GeneralConfig) (config : RepositoryConfig) (fetcher : Fetcher)
      (new current : Repository) (plan : Plan) (w : World) : Type 0 where
    pub key : Option Text
    pub store : LiveRepoMetadataStore
    pub saved : SavedRepoMetadataStore
    pub w₁ : World
    pub w₂ : World
    pub w₃ : World
    pub fetched : Returns (fetch_repository general fetcher config) w (new, store) w₁
    pub parsed : parse_public_key config.source ≡ ok key
    pub valid : Returns (validate key new) w₁ tt w₂
    pub loaded : Returns (load_current general config) w₂ (current, saved) w₃
    pub compared : repo_diff new current ≡ ok plan

  module _ (general : GeneralConfig) (config : RepositoryConfig) (fetcher : Fetcher)
      (new current : Repository) (plan : Plan) (w w' : World)
      (t : Passes general config fetcher new current plan w) where
    passed-HoldsAll :
        ((p : Text) → Keeps (SamePlace p) (fetch_repository general fetcher config))
        → HoldsAll d l w (repository_files current)
        → HoldsAll d l t.w₃ (repository_files current)
    passed-HoldsAll frame before =
        All-map (Holds d l w) (Holds d l t.w₃)
          (λ f h.
            let loaded =
              Returns-Keeps SameFiles (load_current general config) t.w₂ t.w₃ _
                (load_current-SameFiles general config) t.loaded in
            let valid =
              Returns-Keeps SameFiles (validate t.key new) t.w₁ t.w₂ tt
                (validate-SameFiles t.key new) t.valid in
            let fetched =
              Returns-Keeps (SamePlace f.path) (fetch_repository general fetcher config) w t.w₁ _
                (frame f.path) t.fetched in
            let q = l.locate f.path in
            Holds-SameAt d l f w t.w₃
              (l.view-SameFiles t.w₂ t.w₃ q loaded ∙ l.view-SameFiles t.w₁ t.w₂ q valid ∙ fetched)
              h)
          (repository_files current) before

    pub sync_repo_internal-HoldsAll :
        IsQuiet fetcher
        → ((p : Text) → Keeps (SamePlace p) (fetch_repository general fetcher config))
        → ((p : Text) → Keeps (SamePlace p) (replace t.store (data_path general config)))
        → HasPlaces d l (repository_files new)
        → SparesAll d l (repository_files new) plan
        → HoldsAll d l w (repository_files current)
        → Returns (sync_repo_internal general fetcher d config) w tt w'
        → HoldsAll d l w' (repository_files new)
    unfolding sync_repo_internal lift ◌>>=◌
    sync_repo_internal-HoldsAll quiet frame apart places spared before h =
        let e₁ = bind-step (fetch_repository general fetcher config) _ w t.w₁ _ t.fetched in
        let e₂ =
          bind-step (lift (parse_public_key config.source)) _ t.w₁ t.w₁ t.key
            (λ i. (t.parsed i, t.w₁)) in
        let e₃ = bind-step (validate t.key new) _ t.w₁ t.w₂ tt t.valid in
        let e₄ = bind-step (load_current general config) _ t.w₂ t.w₃ _ t.loaded in
        let e₅ =
          bind-step (lift (repo_diff new current)) _ t.w₃ t.w₃ plan (λ i. (t.compared i, t.w₃)) in
        publish-HoldsAll d l new current plan t.compared places fetcher quiet general config t.store
          t.w₃ w' spared apart (passed-HoldsAll frame before)
          (sym e₅ ∙ sym e₄ ∙ sym e₃ ∙ sym e₂ ∙ sym e₁ ∙ h)

  -- A synchronisation that ends well has passed all its steps: what it published is what it
  -- downloaded, with the signatures validated, compared with the state that it loaded.
  pub sync_repo_internal-Passes :
      (general : GeneralConfig) (config : RepositoryConfig) (fetcher : Fetcher) (w w' : World)
      → Returns (sync_repo_internal general fetcher d config) w tt w'
      → (new : Repository) × (current : Repository) × (plan : Plan) × (t : Passes general config
          fetcher new current plan w)
        × Returns (publish general config fetcher d t.store plan) t.w₃ tt w'
  unfolding sync_repo_internal lift
  sync_repo_internal-Passes general config fetcher w w' h =
      let ((new, store), fetched, h₁) =
        bind-Returns (fetch_repository general fetcher config) _ w w' tt h in
      let (key, parsed, h₂) = bind-Returns (lift (parse_public_key config.source)) _ _ w' tt h₁ in
      let (checked, valid, h₃) = bind-Returns (validate key new) _ _ w' tt h₂ in
      let ((current, saved), loaded, h₄) =
        bind-Returns (load_current general config) _ _ w' tt h₃ in
      let (plan, compared, h₅) = bind-Returns (lift (repo_diff new current)) _ _ w' tt h₄ in
      (
        new,
        current,
        plan,
        record {
          key = key;
          store = store;
          saved = saved;
          w₁ = _;
          w₂ = _;
          w₃ = _;
          fetched = fetched;
          parsed = λ i. (parsed i).0;
          valid = valid;
          loaded = loaded;
          compared = λ i. (compared i).0;
        },
        h₅,
      )
