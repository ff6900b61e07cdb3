-- ===== src/Sync/Mirror/Authentic.antt =====
-- The signatures in `sync_repo_internal` of src/sync.rs.
use mathlib.Core.Path.{subst}
use reposync.Base.{All, ◌≡◌, sym, ◌∙◌, some, Text}
use reposync.Base.Outcome.{ok, ok-injective}
use reposync.Base.Crates.{Crates}
use reposync.Config.Data.{GeneralConfig, RepositoryConfig}
use reposync.Config.Load.{parse_public_key}
use reposync.Packages.{Repository}
use reposync.World.{World}
use reposync.World.Bind.{Returns}
use reposync.Fetcher.{Fetcher}
use reposync.Destination.{Destination, IsLawful}
use reposync.Sync.Diff.{Plan}
use reposync.Sync.Manager.{all_indexes, validate, publish, sync_repo_internal}
use reposync.Sync.Manager.Validated.{IsAuthentic, validate-IsAuthentic}
use reposync.Sync.Mirror.Ends.{Passes, sync_repo_internal-Passes}

module _ ⦃lib : Crates⦄ where
  -- A synchronisation of a source with a public key that ends well has published the comparison of
  -- the repository that it downloaded with the stored one, after all its steps. Each index of the
  -- downloaded repository has no signature, or it is one of the key for the content that the file
  -- of the index had after the download.
  pub sync_repo_internal-IsAuthentic :
      (d : Destination) (l : IsLawful d) (general : GeneralConfig) (config : RepositoryConfig)
      (fetcher : Fetcher) (key : Text) (w w' : World)
      → parse_public_key config.source ≡ ok (some key)
      → Returns (sync_repo_internal general fetcher d config) w tt w'
      → (new : Repository) × (current : Repository) × (plan : Plan) × (t : Passes d l general config
          fetcher new current plan w)
        × All (IsAuthentic key t.w₁) (all_indexes new.collections)
        × Returns (publish general config fetcher d t.store plan) t.w₃ tt w'
  sync_repo_internal-IsAuthentic d l general config fetcher key w w' parsed h =
      let (new, current, plan, t, published) =
        sync_repo_internal-Passes d l general config fetcher w w' h in
      let same : t.key ≡ some key = ok-injective t.key (some key) (sym t.parsed ∙ parsed) in
      let valid = subst (λ k. Returns (validate k new) t.w₁ tt t.w₂) same t.valid in
      (new, current, plan, t, validate-IsAuthentic key new t.w₁ t.w₂ valid, published)
