-- ===== src/Tests/Mirror.antt =====
-- A synchronisation of the sample repository.
use reposync.Base.{
  ◌⊎◌, sym, ap, ◌∙◌, ◌≡◌, ◌≢◌, refl, false, inl, inr, none, some, List, [], ◌∷◌, Text,
  text-discrete, texts-discrete, ℕ-discrete, arith, lit, text_eq,
}
use reposync.Base.Outcome.{ok}
use reposync.Base.Members.{In, All-In}
use reposync.Destination.S3.Lawful.{s3-IsLawful, object-bucket}
use reposync.Sync.Mirror.Bucket.{key-path, HasPaths, IsApart, IsServed}
use reposync.Packages.{matches, package-discrete, target-discrete}
use reposync.World.{◌>>=◌}
use reposync.Fetcher.{Fetcher, create_chain}
use reposync.Fetcher.Quiet.{create_chain-SameFiles}
use reposync.State.{replace}
use reposync.State.Replace.{replace-bucket}
use reposync.Destination.S3.{s3_destination, s3_path}
use reposync.Sync.Diff.{
  Plan, CopyOperation, DeleteOperation, repo_diff, collect, copy-discrete, delete-discrete,
}
use reposync.Sync.Files.{FileSpec, repository_files, index_file, package_file}
use reposync.Sync.Manager.{publish, apply_plan, data_path}
use reposync.Sync.Mirror.Applied.{Spares, apply_plan-ordered}
use reposync.Sync.Mirror.Mirrored.{
  HasPlaces, HasPlaces-IsConsistent, SparesAll, HoldsAll, publish-HoldsAll,
}
use reposync.Sync.Copy.Uploaded.{Holds, Agrees, Avoids}
use reposync.Sync.Diff.Planned.{IsConsistent}
use reposync.Tests.Data.{
  sample_crates, new_package, index, new_repository, old_repository, bucket, world, general,
  repository_config, store, pool, release, old_pool,
}

abbrev package_operation : CopyOperation
package_operation = record {
  is_replace = false;
  path = pool;
  hash = new_package.hash;
  size = 1;
  local_file = none;
}

abbrev pub index_operation : CopyOperation
index_operation = record {
  is_replace = false;
  path = release;
  hash = index.hash;
  size = 2;
  local_file = some index.file_path;
}

abbrev pub plan : Plan
plan = record {
  packages_copy = package_operation ∷ [];
  packages_delete = record { path = old_pool } ∷ [];
  index_copy = index_operation ∷ [];
  index_delete = [];
}

pub diff : repo_diff new_repository old_repository ≡ ok plan
unfolding repo_diff collect ℕ-discrete text-discrete package-discrete target-discrete copy-discrete
    delete-discrete
diff = refl

pub applied :
    (apply_plan [] (104 ∷ []) (create_chain 2 none) (s3_destination bucket) plan world).0 ≡ ok tt
unfolding apply_plan create_chain s3_destination s3_path lit ◌>>=◌ ℕ-discrete texts-discrete
    text-discrete
applied = refl

published :
    (publish general repository_config
      (create_chain 2 none)
      (s3_destination bucket)
      (store (create_chain 2 none))
      plan
      world).0
    ≡ ok tt
unfolding publish create_chain s3_destination s3_path lit ◌>>=◌ ℕ-discrete texts-discrete
    text-discrete
published = refl

-- The files of the sample have different paths.
paths : HasPaths (repository_files new_repository)
paths f g (inl a) (inl b) e =
    (ap (λ (z : FileSpec). z.hash) (sym a ∙ b), ap (λ (z : FileSpec). z.size) (sym a ∙ b))
paths f g (inl a) (inr (inl b)) e =
    absurd (differ (ap (λ (z : FileSpec). z.path) a ∙ e ∙ sym (ap (λ (z : FileSpec). z.path) b)))
  where
    differ : pool ≡ release → ⊥
    differ k = ground arith
paths f g (inr (inl a)) (inl b) e =
    absurd (differ (ap (λ (z : FileSpec). z.path) a ∙ e ∙ sym (ap (λ (z : FileSpec). z.path) b)))
  where
    differ : release ≡ pool → ⊥
    differ k = ground arith
paths f g (inr (inl a)) (inr (inl b)) e =
    (ap (λ (z : FileSpec). z.hash) (sym a ∙ b), ap (λ (z : FileSpec). z.size) (sym a ∙ b))
paths f g (inr (inr a)) n e = absurd a
paths f g (inl a) (inr (inr b)) e = absurd b
paths f g (inr (inl a)) (inr (inr b)) e = absurd b

-- The deletion of the old package spares a file with another path.
abbrev IsSpared : FileSpec → Type 0
IsSpared f =
    ((o : DeleteOperation) → In o plan.packages_delete → o.path ≢ f.path)
    × ((o : DeleteOperation) → In o plan.index_delete → o.path ≢ f.path)

spared : (f : FileSpec) → old_pool ≢ f.path → IsSpared f
spared f n = (
  λ o m e. elim m [ inl a ↦ n (ap (λ (z : DeleteOperation). z.path) a ∙ e) | inr b ↦ b ],
  λ o m e. m,
)

apart : IsApart (repository_files new_repository) plan
apart = All-In IsSpared (repository_files new_repository) (
  spared (package_file new_package) (λ e. ground arith),
  (spared (index_file index) (λ e. ground arith), tt),
)

before : IsServed bucket world (repository_files old_repository)
unfolding s3-IsLawful matches s3_path lit ℕ-discrete text-discrete
before = ((record { content = 68 ∷ []; failure = none }, refl, refl, refl), tt)

abbrev pub chain : Fetcher
chain = create_chain 2 none

abbrev place : Text → List Text
place p = s3_path bucket p ∷ []

at_place : (p q : Text) → place p ≡ place q → p ≡ q
at_place = key-path bucket

package-Agrees :
    Agrees
      (s3_destination bucket)
      (s3-IsLawful bucket)
      (package_file new_package)
      plan.packages_copy
unfolding s3-IsLawful
package-Agrees o (inl a) e =
    (ap (λ (z : CopyOperation). z.hash) (sym a), ap (λ (z : CopyOperation). z.size) (sym a))
package-Agrees o (inr b) e = absurd b

index-Avoids : Avoids (s3_destination bucket) (s3-IsLawful bucket) (place pool) plan.index_copy
unfolding s3-IsLawful
index-Avoids o (inl a) e =
    let k : release ≡ pool = ap (λ (z : CopyOperation). z.path) a ∙ at_place o.path pool e in
    ground arith
index-Avoids o (inr b) e = absurd b

package-Avoids :
    Avoids (s3_destination bucket) (s3-IsLawful bucket) (place release) plan.packages_copy
unfolding s3-IsLawful
package-Avoids o (inl a) e =
    let k : pool ≡ release = ap (λ (z : CopyOperation). z.path) a ∙ at_place o.path release e in
    ground arith
package-Avoids o (inr b) e = absurd b

package_spared :
    Spares (s3_destination bucket) (s3-IsLawful bucket) (place pool) plan.packages_delete
unfolding s3-IsLawful
package_spared o m e =
    (spared (package_file new_package) (λ k. ground arith)).0 o m (at_place o.path pool e)

all_spared :
    SparesAll (s3_destination bucket) (s3-IsLawful bucket) (repository_files new_repository) plan
unfolding s3-IsLawful
all_spared f m = (
  λ o n e. (apart f m).0 o n (at_place o.path f.path e),
  λ o n e. (apart f m).1 o n (at_place o.path f.path e),
)

all_places :
    HasPlaces (s3_destination bucket) (s3-IsLawful bucket) (repository_files new_repository)
unfolding s3-IsLawful
all_places f g m n e = paths f g m n (at_place f.path g.path e)

pub consistent : IsConsistent (repository_files new_repository)
consistent =
    HasPlaces-IsConsistent (s3_destination bucket) (s3-IsLawful bucket)
      (repository_files new_repository) all_places

apply_plan-ordered_example :
    ((s3-IsLawful bucket).view
        (apply_plan [] (104 ∷ []) chain (s3_destination bucket) plan world).1
        (place release)
      ≡ (s3-IsLawful bucket).view world (place release))
    ⊎ Holds
        (s3_destination bucket)
        (s3-IsLawful bucket)
        (apply_plan [] (104 ∷ []) chain (s3_destination bucket) plan world).1
        (package_file new_package)
unfolding s3-IsLawful
apply_plan-ordered_example =
    apply_plan-ordered (s3_destination bucket) (s3-IsLawful bucket) [] (104 ∷ []) chain
      (create_chain-SameFiles 2 none) plan (package_file new_package) world (place release)
      package-Avoids package-Agrees index-Avoids package_spared (λ o m e. m)
      (package_operation, inl refl, refl)

publish-HoldsAll_example :
    HoldsAll
      (s3_destination bucket)
      (s3-IsLawful bucket)
      (publish general repository_config chain (s3_destination bucket) (store chain) plan world).1
      (repository_files new_repository)
unfolding s3-IsLawful
publish-HoldsAll_example =
    publish-HoldsAll (s3_destination bucket) (s3-IsLawful bucket) new_repository old_repository plan
      diff all_places chain (create_chain-SameFiles 2 none) general repository_config (store chain)
      world
      (publish general repository_config chain (s3_destination bucket) (store chain) plan world).1
      all_spared
      (λ p. record {
        at = λ u.
            object-bucket u (replace (store chain) (data_path general repository_config) u).1
              (s3_path bucket p ∷ [])
              ((replace-bucket (store chain) (data_path general repository_config)).at u);
      })
      before
      (λ i. (
        published i,
        (publish general repository_config chain (s3_destination bucket) (store chain) plan
            world).1,
      ))
