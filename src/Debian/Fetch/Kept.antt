-- ===== src/Debian/Fetch/Kept.antt =====
-- What the loops of src/debian.rs leave alone, if the calls of the store do.
use reposync.Base.{
  ℕ, Bool, Option, none, some, List, [], ◌∷◌, Text, lit, ends_with, ◌==◌, ℕ_eq, if◌then◌else◌,
}
use reposync.Base.Outcome.{Outcome, ok, err, panic, IoError}
use reposync.Base.Crates.{Crates, Reader}
use reposync.Config.Data.{RepositoryConfig}
use reposync.Packages.{IndexFile}
use reposync.World.{World, pure, lift}
use reposync.World.Preorder.{
  IsPreorder, Keeps, Keeps-bind, Keeps-pure, Keeps-throw, Keeps-abort, Keeps-lift, Keeps-try,
  Keeps-if,
}
use reposync.State.{MetadataStore}
use reposync.Utils.Kept.{add_optional_index-Keeps, expect-Keeps}
use reposync.Debian.Packages.{parse_packages}
use reposync.Debian.Fetch.{
  release_signature, index_loop, version_collection, skip_version, version_found, version_loop,
  fetch_repository_internal,
}

module _ ⦃lib : Crates⦄ (state : MetadataStore) {R : World → World → Type 0} (p : IsPreorder R)
    (fetch : (path : Text) → Keeps R (state.fetch path))
    (read : (path : Text) → Keeps R (state.read path)) where
  release_signature-Keeps : (o : Option Reader) → Keeps R (release_signature state o)
  unfolding release_signature
  release_signature-Keeps none = Keeps-pure p _
  release_signature-Keeps (some r) = Keeps-bind p _ _ (Keeps-lift p _) λ _. Keeps-pure p _

  packages-Keeps :
      (b : Bool) (r : Reader) → Keeps R (if b then lift (parse_packages r) else pure [])
  packages-Keeps b r = Keeps-if b _ _ (Keeps-lift p _) (Keeps-pure p _)

  index_loop-Keeps : (indexes : List IndexFile) → Keeps R (index_loop state indexes)
  unfolding index_loop
  index_loop-Keeps [] = Keeps-pure p _
  index_loop-Keeps (index ∷ rest) = Keeps-bind p _ _ (fetch index.path) λ found.
      Keeps-if (index.size == found.2) _ _
        (Keeps-bind p _ _
          (Keeps-if (ends_with index.path (lit "Packages")) _ _ (Keeps-lift p _) (Keeps-pure p _))
          λ _. Keeps-bind p _ _ (index_loop-Keeps rest) λ _. Keeps-pure p _)
        (Keeps-throw p _)

  version_collection-Keeps :
      (codename version_path path : Text) (found : Text × Reader × ℕ)
      → Keeps R (version_collection state codename version_path path found)
  unfolding version_collection
  version_collection-Keeps codename version_path path (disk_path, reader, size) =
      Keeps-bind p _ _ (Keeps-lift p _) λ release.
        Keeps-bind p _ _ (add_optional_index-Keeps state p fetch read _ _ _) λ a.
          Keeps-bind p _ _ (add_optional_index-Keeps state p fetch read _ _ _) λ b.
            Keeps-bind p _ _ (read path) λ again. Keeps-bind p _ _ (expect-Keeps p again) λ stored.
              Keeps-bind p _ _ (release_signature-Keeps b.0) λ signature.
                Keeps-bind p _ _ (Keeps-lift p _)
                  λ hash. Keeps-bind p _ _ (index_loop-Keeps release.indexes) λ _. Keeps-pure p _

  version_found-Keeps :
      (allow_empty : Bool) (codename : Text) (r : Outcome IoError (Text × Reader × ℕ))
      → Keeps R (version_found state allow_empty codename r)
  unfolding version_found
  version_found-Keeps allow_empty codename (ok found) =
      Keeps-bind p _ _ (version_collection-Keeps codename _ _ found) λ _. Keeps-pure p _
  version_found-Keeps allow_empty codename (err e) =
      Keeps-if (skip_version state allow_empty e) _ _ (Keeps-pure p _) (Keeps-throw p _)
  version_found-Keeps allow_empty codename panic = Keeps-abort p

  version_loop-Keeps :
      (allow_empty : Bool) (versions : List Text)
      → Keeps R (version_loop state allow_empty versions)
  unfolding version_loop
  version_loop-Keeps allow_empty [] = Keeps-pure p _
  version_loop-Keeps allow_empty (v ∷ rest) = Keeps-bind p _ _ (Keeps-try _ (fetch _)) λ r.
      Keeps-bind p _ _ (version_found-Keeps allow_empty v r)
        λ found. Keeps-bind p _ _ (version_loop-Keeps allow_empty rest) λ more. Keeps-pure p _

  pub debian-Keeps :
      (config : RepositoryConfig) (allow_empty : Bool)
      → Keeps R (fetch_repository_internal state config allow_empty)
  unfolding fetch_repository_internal
  debian-Keeps config allow_empty =
      Keeps-bind p _ _ (version_loop-Keeps allow_empty config.versions) λ _. Keeps-pure p _
