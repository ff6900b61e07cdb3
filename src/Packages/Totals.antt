-- ===== src/Packages/Totals.antt =====
-- `Repository::size` and `Repository::count_packages` of src/packages.rs.
use reposync.Base.{ℕ, ◌+◌, ◌%◌, ◌^◌, ◌<◌, ◌≡◌, List, [], ◌∷◌, length, arith}
use reposync.Packages.{
  IndexFile, Package, Collection, Repository, add_u64, index_sizes, package_sizes, size_loop, size,
  count_loop, count_packages,
}

abbrev total_indexes : List IndexFile → ℕ
total_indexes [] = 0
total_indexes (i ∷ is) = i.size + total_indexes is

abbrev total_packages : List Package → ℕ
total_packages [] = 0
total_packages (p ∷ ps) = p.size + total_packages ps

-- All bytes of a repository, and all its packages, as unbounded numbers.
abbrev pub total : List Collection → ℕ
total [] = 0
total (c ∷ cs) = total_indexes c.indexes + total_packages c.packages + total cs

abbrev pub packages_in : List Collection → ℕ
packages_in [] = 0
packages_in (c ∷ cs) = length c.packages + packages_in cs

index_sizes-total :
    (acc : ℕ) (is : List IndexFile)
    → acc < 2 ^ 64
    → index_sizes acc is ≡ (acc + total_indexes is) % 2 ^ 64
unfolding index_sizes
index_sizes-total acc [] h = omega arith
index_sizes-total acc (i ∷ is) h =
    omega (arith, index_sizes-total (add_u64 acc i.size) is (omega arith))

package_sizes-total :
    (acc : ℕ) (ps : List Package)
    → acc < 2 ^ 64
    → package_sizes acc ps ≡ (acc + total_packages ps) % 2 ^ 64
unfolding package_sizes
package_sizes-total acc [] h = omega arith
package_sizes-total acc (p ∷ ps) h =
    omega (arith, package_sizes-total (add_u64 acc p.size) ps (omega arith))

size_loop-total :
    (acc : ℕ) (cs : List Collection) → acc < 2 ^ 64 → size_loop acc cs ≡ (acc + total cs) % 2 ^ 64
unfolding size_loop
size_loop-total acc [] h = omega arith
size_loop-total acc (c ∷ cs) h = omega (
  arith,
  index_sizes-total 0 c.indexes (omega arith),
  package_sizes-total 0 c.packages (omega arith),
  size_loop-total (add_u64 (add_u64 acc (index_sizes 0 c.indexes)) (package_sizes 0 c.packages)) cs
      (omega arith),
)

count_loop-total :
    (acc : ℕ) (cs : List Collection)
    → acc < 2 ^ 64
    → count_loop acc cs ≡ (acc + packages_in cs) % 2 ^ 64
unfolding count_loop
count_loop-total acc [] h = omega arith
count_loop-total acc (c ∷ cs) h =
    omega (arith, count_loop-total (add_u64 acc (length c.packages)) cs (omega arith))

-- The two totals of the API are the sums over all collections, modulo 2^64.
pub size-total :
    (r : Repository)
    → (size r ≡ total r.collections % 2 ^ 64)
      × (count_packages r ≡ packages_in r.collections % 2 ^ 64)
unfolding size count_packages
size-total r = omega (
  arith,
  size_loop-total 0 r.collections (omega arith),
  count_loop-total 0 r.collections (omega arith),
)
