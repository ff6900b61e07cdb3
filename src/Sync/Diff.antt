-- ===== src/Sync/Diff.antt =====
-- `repo_diff` of src/sync.rs: what to copy and what to delete, from the new and the current state.
pub mod Dedup
pub mod Maps
pub mod Planned
pub mod Complete
pub mod Dropped
use reposync.Base.{
  ℕ, Bool, true, false, not, ◌&&◌, Option, none, some, List, [], ◌∷◌, ◌++◌, map, Text, find, filter,
  contains, unwrap_or, is_some, Eq, ◌==◌, text_eq, ℕ_discrete, if◌then◌else◌,
}
use reposync.Base.Outcome.{Result, ok, err, panic, ◌>>=◌}
use reposync.Base.Dict.{Dict, get, insert}
use reposync.Packages.{
  Hash, Package, IndexFile, Collection, Repository, Target, empty_collection, package_eq, target_eq,
  same_content,
}

pub record CopyOperation : Type 0 where
  pub is_replace : Bool
  pub path : Text
  pub hash : Hash
  pub size : ℕ
  pub local_file : Option Text

pub record DeleteOperation : Type 0 where
  pub path : Text

-- `#[derive(Eq, PartialEq)]`
unfoldable pub copy-discrete : Discrete CopyOperation
unfolding ℕ_discrete
copy-discrete = hlevel ℕ_discrete

unfoldable pub delete-discrete : Discrete DeleteOperation
unfolding ℕ_discrete
delete-discrete = hlevel ℕ_discrete

instance abbrev pub copy_eq : Eq CopyOperation
copy_eq = record { dec = copy-discrete }

instance abbrev pub delete_eq : Eq DeleteOperation
delete_eq = record { dec = delete-discrete }

-- `iter().map(|x| (x.path.clone(), x)).collect()`: of two values with one path the later stays.
unfoldable pub collect {ℓ} : {A : Type ℓ} → (A → Text) → Dict A → List A → Dict A
unfolding insert
collect path d [] = d
collect path d (x ∷ xs) = collect path (insert (path x) x d) xs

-- The filter and the map of `packages_copy_list`.
package_changed : Dict Package → Text × Package → Bool
package_changed current (key, new_package) = elim (get current key) [
  | some current_package ↦ not (current_package == new_package)
  | none ↦ true
]

package_copy : Dict Package → Text × Package → CopyOperation
package_copy current (key, new_package) = record {
  is_replace = is_some (get current key);
  path = new_package.path;
  hash = new_package.hash;
  size = new_package.size;
  local_file = none;
}

-- The filter and the map of `packages_delete_list`.
package_unused : Dict Package → Text × Package → Bool
package_unused new (key, _) = not (is_some (get new key))

package_delete : Text × Package → DeleteOperation
package_delete (_, current_package) = record { path = current_package.path }

-- The filter of `index_copy_list`, which may panic in `same_content`.
index_changed : Dict IndexFile → IndexFile → Result Bool
index_changed current new_index = elim (get current new_index.path) [
  | some current_index ↦ (do same ← same_content new_index current_index; ok (not same))
  | none ↦ ok true
]

index_copy : Dict IndexFile → IndexFile → CopyOperation
index_copy current new_index = record {
  is_replace = is_some (get current new_index.path);
  path = new_index.path;
  hash = new_index.hash;
  size = new_index.size;
  local_file = some new_index.file_path;
}

pub index_copies : Dict IndexFile → List IndexFile → Result (List CopyOperation)
unfolding index_changed index_copy
index_copies current [] = ok []
index_copies current (i ∷ is) = do
  changed ← index_changed current i
  rest ← index_copies current is
  ok (if changed then index_copy current i ∷ rest else rest)

index_unused : Dict IndexFile → IndexFile → Bool
index_unused new x = not (is_some (get new x.path))

index_delete : IndexFile → DeleteOperation
index_delete x = record { path = x.path }

-- The four lists of operations.
pub record Plan : Type 0 where
  pub packages_copy : List CopyOperation
  pub packages_delete : List DeleteOperation
  pub index_copy : List CopyOperation
  pub index_delete : List DeleteOperation

abbrev pub package_map : List Package → Dict Package
package_map = collect (λ p. p.path) []

abbrev pub index_map : List IndexFile → Dict IndexFile
index_map = collect (λ i. i.path) []

-- The body of the loop: the lists of one collection.
unfoldable pub collection_diff : Collection → Collection → Result Plan
unfolding package_changed package_copy package_unused package_delete index_copies index_unused
    index_delete
collection_diff collection current = do
  let new_packages = package_map collection.packages
  let current_packages = package_map current.packages
  copies ← index_copies (index_map current.indexes) collection.indexes
  ok (record {
    packages_copy =
        map (package_copy current_packages)
          (filter (package_changed current_packages) new_packages);
    packages_delete = map package_delete (filter (package_unused new_packages) current_packages);
    index_copy = copies;
    index_delete =
        map index_delete (filter (index_unused (index_map collection.indexes)) current.indexes);
  })

-- `find(..).unwrap_or(&empty_collection)`
unfoldable pub current_collection : Repository → Target → Collection
current_collection current_repo target =
    unwrap_or (find (λ x. x.target == target) current_repo.collections) (empty_collection target)

abbrev pub empty_plan : Plan
empty_plan = record { packages_copy = []; packages_delete = []; index_copy = []; index_delete = [] }

abbrev pub append_plan : Plan → Plan → Plan
append_plan a b = record {
  packages_copy = a.packages_copy ++ b.packages_copy;
  packages_delete = a.packages_delete ++ b.packages_delete;
  index_copy = a.index_copy ++ b.index_copy;
  index_delete = a.index_delete ++ b.index_delete;
}

-- The loop over `repo.collections`.
unfoldable pub collections_diff : Repository → List Collection → Result Plan
unfolding collection_diff current_collection
collections_diff current_repo [] = ok empty_plan
collections_diff current_repo (c ∷ cs) = do
  plan ← collection_diff c (current_collection current_repo c.target)
  rest ← collections_diff current_repo cs
  ok (append_plan plan rest)

-- The loop of `deduplicate_list` over the values that are left.
dedup_loop {ℓ} : {A : Type ℓ} ⦃e : Eq A⦄ → List A → List A → List A
dedup_loop tmp [] = tmp
dedup_loop tmp (x ∷ list) = dedup_loop (if contains tmp x then tmp else tmp ++ x ∷ []) list

-- `SyncManager::deduplicate_list`
unfoldable pub deduplicate_list {ℓ} : {A : Type ℓ} ⦃e : Eq A⦄ → List A → List A
unfolding dedup_loop
deduplicate_list list = dedup_loop [] list

-- `SyncManager::repo_diff`
unfoldable pub repo_diff : Repository → Repository → Result Plan
unfolding collections_diff deduplicate_list
repo_diff repo current_repo = do
  plan ← collections_diff current_repo repo.collections
  ok (record {
    packages_copy = deduplicate_list plan.packages_copy;
    packages_delete = deduplicate_list plan.packages_delete;
    index_copy = deduplicate_list plan.index_copy;
    index_delete = deduplicate_list plan.index_delete;
  })
