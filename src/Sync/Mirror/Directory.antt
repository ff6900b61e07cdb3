-- ===== src/Sync/Mirror/Directory.antt =====
-- `sync_repo_internal` of src/sync.rs to a directory of the local file system.
use mathlib.Core.Path.{subst}
use mathlib.Core.List.{append_assoc}
use reposync.Base.{
  All, ◌≡◌, sym, ◌∙◌, ap, ℕ, false, Option, none, List, [], ◌∷◌, ◌++◌, Text, lit, arith,
}
use reposync.Base.Crates.{Crates}
use reposync.Config.Data.{GeneralConfig, RepositoryConfig}
use reposync.Packages.{Repository}
use reposync.World.{World}
use reposync.World.Preorder.{Keeps, SameAt-preorder}
use reposync.World.Bind.{Returns}
use reposync.World.Files.{components, IsResolved, strip, is_below}
use reposync.World.Files.Frame.{content}
use reposync.World.Files.Writes.{SameContent}
use reposync.World.Files.Below.{components-append}
use reposync.State.{replace}
use reposync.State.Outside.{live_fetch-outside, live_read-outside, live_new-outside}
use reposync.State.Replaced.{replace-outside}
use reposync.Fetcher.{create_chain}
use reposync.Fetcher.Quiet.{create_chain-SameFiles}
use reposync.Destination.Local.{LocalDestination, local_path, local_destination}
use reposync.Destination.Local.Lawful.{place, local-IsLawful}
use reposync.Sync.Diff.{Plan}
use reposync.Sync.Files.{repository_files}
use reposync.Sync.Manager.{data_path, tmp_path, sync_repo_internal}
use reposync.Sync.Manager.Kept.{made, fetch_repository-Keeps, fetch_repository-made}
use reposync.Sync.Mirror.Mirrored.{HasPlaces, SparesAll, HoldsAll}
use reposync.Sync.Mirror.Ends.{Passes, sync_repo_internal-HoldsAll}

-- The mirror is below none of the directories that a synchronisation works in: the temporary one,
-- the stored state, and the place where that is set aside.
pub record IsApart (d : LocalDestination) (general : GeneralConfig) (config : RepositoryConfig)
    : Type 0 where
  pub from_tmp :
      (r : List Text) → strip (components (tmp_path general config)) (components d.path ++ r) ≡ none
  pub from_state :
      (r : List Text)
      → strip (components (data_path general config)) (components d.path ++ r) ≡ none
  pub from_aside :
      (r : List Text)
      → strip (components (data_path general config ++ lit "__")) (components d.path ++ r) ≡ none

-- No path that the synchronisation works with has the name `..` in it.
pub record AreResolved (d : LocalDestination) (general : GeneralConfig) (config : RepositoryConfig)
    (new current : Repository) : Type 0 where
  pub directory : IsResolved d.path
  pub temporary : IsResolved (tmp_path general config)
  pub state : IsResolved (data_path general config)
  pub new_files : All (λ f. IsResolved f.path) (repository_files new)
  pub current_files : All (λ f. IsResolved f.path) (repository_files current)

local_path-components :
    (d : LocalDestination) (p : Text)
    → components d.path ++ components p ≡ components (local_path d p)
unfolding local_path lit
local_path-components d p =
    sym (components-append d.path p) ∙ ap components (sym (append_assoc d.path (47 ∷ []) p))

place-outside :
    (d : LocalDestination) (a : List Text) (p : Text)
    → ((r : List Text) → strip a (components d.path ++ r) ≡ none)
    → strip a (place d p) ≡ none
place-outside d a p h = subst (λ q. strip a q ≡ none) (local_path-components d p) (h (components p))

module _ ⦃lib : Crates⦄ (d : LocalDestination) (general : GeneralConfig) (config : RepositoryConfig)
    (max_retries : ℕ) (secret : Option Text) (new current : Repository) (plan : Plan) (w w' : World)
    (t : Passes
      (local_destination d)
      (local-IsLawful d)
      general
      config
      (create_chain max_retries secret)
      new
      current
      plan
      w) where
  -- A synchronisation to a directory that ends well, having passed all its steps, has mirrored the
  -- new repository: the directory has each of its files with its hash and size. It must have had
  -- those of the current state before and lie apart from the directories of the service, no path may
  -- have the name `..` in it, files of one place must agree, and no deletion may have the place of a
  -- new file.
  pub sync_repo_internal-IsStored :
      IsApart d general config
      → AreResolved d general config new current
      → HasPlaces (local_destination d) (local-IsLawful d) (repository_files new)
      → SparesAll (local_destination d) (local-IsLawful d) (repository_files new) plan
      → HoldsAll (local_destination d) (local-IsLawful d) w (repository_files current)
      → Returns
          (sync_repo_internal general
            (create_chain max_retries secret)
            (local_destination d)
            config)
          w
          tt
          w'
      → HoldsAll (local_destination d) (local-IsLawful d) w' (repository_files new)
  unfolding local-IsLawful
  sync_repo_internal-IsStored apart resolved places spared before h =
      let chain = create_chain max_retries secret in
      let quiet = create_chain-SameFiles max_retries secret in
      let directory = tmp_path general config in
      let url = config.source.endpoint in
      sync_repo_internal-HoldsAll (local_destination d) (local-IsLawful d) general config chain new
        current plan w w' t quiet
        (λ p.
          let q = place d p in
          let outside = place-outside d (components directory) p apart.from_tmp in
          let not_below : is_below (components directory) q ≡ false = ground (arith, outside) in
          fetch_repository-Keeps (SameAt-preorder (λ u. content u q)) general chain config
            (live_new-outside q url directory chain not_below)
            (λ path. live_fetch-outside q directory not_below url chain path quiet)
            (λ path. live_read-outside q directory not_below (made url directory chain) path))
        (λ p.
          subst (λ s. Keeps (SameContent (place d p)) (replace s (data_path general config)))
            (fetch_repository-made general chain config w t.w₁ new t.store t.fetched)
            (replace-outside (made url directory chain) (data_path general config) (place d p)
              (place-outside d (components (data_path general config)) p apart.from_state)
              (place-outside d (components (data_path general config ++ lit "__")) p
                apart.from_aside)
              (place-outside d (components directory) p apart.from_tmp)))
        places spared before h
