-- ===== src/Tests/Planned.antt =====
-- The plan of the sample repository: what it deletes, copies and lists.
use reposync.Base.{
  ◌⊎◌, ◌↔◌, ◌≡◌, refl, inl, inr, none, [], ◌∷◌, text-discrete, ℕ-discrete, arith, text_eq,
}
use reposync.Base.Members.{In}
use reposync.Destination.S3.Lawful.{s3-IsLawful}
use reposync.Packages.{Collection, target-discrete}
use reposync.World.{World}
use reposync.World.Bind.{Returns}
use reposync.Destination.S3.{s3_destination}
use reposync.Sync.Files.{repository_files, index_file}
use reposync.Sync.Manager.{apply_plan}
use reposync.Sync.Mirror.Deleted.{apply_plan-IsGone, apply_plan-dropped}
use reposync.Sync.Diff.{current_collection}
use reposync.Sync.Diff.Complete.{IsCopied, repo_diff-IsCopied, repo_diff-IsOf}
use reposync.Sync.Diff.Dropped.{IsDropped, repo_diff-IsDroppedBy}
use reposync.Tests.Data.{
  target, sample_crates, new_package, old_package, index, new_repository, old_repository, bucket,
  world, old_pool,
}
use reposync.Tests.Mirror.{index_operation, plan, chain, diff, applied, consistent}

abbrev after : World
after = (apply_plan [] (104 ∷ []) chain (s3_destination bucket) plan world).1

returned : Returns (apply_plan [] (104 ∷ []) chain (s3_destination bucket) plan) world tt after
returned = λ i. (applied i, after)

apply_plan-IsGone_example :
    (s3-IsLawful bucket).view after ((s3-IsLawful bucket).locate old_pool) ≡ none
apply_plan-IsGone_example =
    apply_plan-IsGone (s3_destination bucket) (s3-IsLawful bucket) [] (104 ∷ []) chain plan
      (record { path = old_pool }) world after returned (inl (inl refl))

-- The old package is no package of the new collection.
dropped : IsDropped (new_package ∷ []) (old_package ∷ []) old_pool
dropped = record {
  witness = old_package;
  was_old = inl refl;
  has_path = refl;
  not_new = (λ e. ground arith, tt);
}

current-IsDropped :
    IsDropped (new_package ∷ []) (current_collection old_repository target).packages old_pool
unfolding current_collection ℕ-discrete text-discrete target-discrete
current-IsDropped = dropped

apply_plan-dropped_example :
    (s3-IsLawful bucket).view after ((s3-IsLawful bucket).locate old_pool) ≡ none
apply_plan-dropped_example =
    apply_plan-dropped (s3_destination bucket) (s3-IsLawful bucket) [] (104 ∷ []) chain
      new_repository old_repository plan old_pool
      (record { target = target; indexes = index ∷ []; packages = new_package ∷ [] }) world after
      diff (inl refl) current-IsDropped returned

repo_diff-IsCopied_example :
    IsCopied (index_file index) plan ⊎ In (index_file index) (repository_files old_repository)
repo_diff-IsCopied_example =
    repo_diff-IsCopied new_repository old_repository plan diff (index_file index) consistent
      (inr (inl refl))

repo_diff-IsOf_example : In (index_file index) (repository_files new_repository)
repo_diff-IsOf_example =
    repo_diff-IsOf new_repository old_repository plan diff index_operation (inr (inl refl))

repo_diff-IsDroppedBy_example : In (record { path = old_pool }) plan.packages_delete ↔ (
    (c : Collection) × In c new_repository.collections
    × IsDropped c.packages (current_collection old_repository c.target).packages old_pool)
repo_diff-IsDroppedBy_example =
    repo_diff-IsDroppedBy new_repository old_repository plan (record { path = old_pool }) diff
