-- ===== src/Sync/Mirror/Bucket.antt =====
-- A synchronisation of src/sync.rs whose destination is a bucket.
use reposync.Base.{
  ℕ, ◌≡◌, ◌≢◌, inl, inr, Option, List, [], ◌∷◌, ◌++◌, Text, lit, arith, ◌==◌, text_eq, Bool-cases,
}
use reposync.Base.Members.{In}
use reposync.Base.Outcome.{ok}
use reposync.Base.Crates.{Crates}
use reposync.Config.Data.{GeneralConfig, RepositoryConfig}
use reposync.Packages.{Repository}
use reposync.World.{World}
use reposync.World.Bind.{Returns}
use reposync.State.{LiveRepoMetadataStore, replace}
use reposync.State.Replace.{replace-bucket}
use reposync.Fetcher.{create_chain}
use reposync.Fetcher.Quiet.{create_chain-SameFiles}
use reposync.Destination.S3.{S3Destination, s3_path, s3_destination}
use reposync.Destination.S3.Lawful.{s3-IsLawful, object-bucket}
use reposync.Sync.Diff.{Plan, DeleteOperation, repo_diff}
use reposync.Sync.Files.{FileSpec, repository_files}
use reposync.Sync.Manager.{publish, data_path}
use reposync.Sync.Mirror.Mirrored.{HoldsAll, publish-HoldsAll}

append_cancel : (p a b : Text) → p ++ a ≡ p ++ b → a ≡ b
append_cancel [] a b h = h
append_cancel (c ∷ p) a b h = append_cancel p a b (ground arith)

-- Different paths have different keys.
pub s3_path-injective : (d : S3Destination) (p q : Text) → s3_path d p ≡ s3_path d q → p ≡ q
unfolding s3_path lit
s3_path-injective d p q h = elim (Bool-cases (d.path == [])) [
  | inl e ↦ rw e at h
  | inr e ↦ append_cancel (d.path ++ lit "/") p q (rw e at h)
]

-- Files of one path agree.
abbrev pub HasPaths : List FileSpec → Type 0
HasPaths fs =
    (f g : FileSpec) → In f fs → In g fs → f.path ≡ g.path → (f.hash ≡ g.hash) × (f.size ≡ g.size)

-- No deletion has the path of a file of the list.
abbrev pub IsApart : List FileSpec → Plan → Type 0
IsApart fs plan =
    (f : FileSpec)
    → In f fs
    → ((o : DeleteOperation) → In o plan.packages_delete → o.path ≢ f.path)
      × ((o : DeleteOperation) → In o plan.index_delete → o.path ≢ f.path)

pub key-path :
    (d : S3Destination) (p q : Text)
    → ◌≡◌ {A = List Text} (s3_path d p ∷ []) (s3_path d q ∷ [])
    → p ≡ q
key-path d p q h = s3_path-injective d p q (ground arith)

module _ ⦃lib : Crates⦄ where
  -- The bucket serves all files of a list, each with its hash and its size.
  abbrev pub IsServed : S3Destination → World → List FileSpec → Type 0
  IsServed d w fs = HoldsAll (s3_destination d) (s3-IsLawful d) w fs

  -- A synchronisation of a bucket that ends well has stored every file of the new repository with
  -- its hash and size, if it started from a mirror of the current one, files of one path agree, and
  -- no deletion has the path of a new file.
  pub publish-IsServed :
      (d : S3Destination) (new current : Repository) (plan : Plan) (max_retries : ℕ)
      (secret : Option Text) (general : GeneralConfig) (repo : RepositoryConfig)
      (store : LiveRepoMetadataStore) (w w' : World)
      → repo_diff new current ≡ ok plan
      → HasPaths (repository_files new)
      → IsApart (repository_files new) plan
      → IsServed d w (repository_files current)
      → Returns
          (publish general repo (create_chain max_retries secret) (s3_destination d) store plan)
          w
          tt
          w'
      → IsServed d w' (repository_files new)
  unfolding s3-IsLawful
  publish-IsServed d new current plan max_retries secret general repo store w w' diff paths apart
        before h =
      publish-HoldsAll (s3_destination d) (s3-IsLawful d) new current plan diff
        (λ f g m n e. paths f g m n (key-path d f.path g.path e)) (create_chain max_retries secret)
        (create_chain-SameFiles max_retries secret) general repo store w w'
        (λ f m.
          let (a, b) = apart f m in
          (
            λ o n e. a o n (key-path d o.path f.path e),
            λ o n e. b o n (key-path d o.path f.path e),
          ))
        (λ p. record {
          at = λ u.
              object-bucket u (replace store (data_path general repo) u).1 (s3_path d p ∷ [])
                ((replace-bucket store (data_path general repo)).at u);
        })
        before h
