-- ===== src/Sync/Files.antt =====
-- The files that a repository serves: what its packages and its indexes say of each.
use reposync.Base.{ℕ, List, [], ◌∷◌, ◌++◌, map, Text}
use reposync.Packages.{Hash, Package, IndexFile, Collection, Repository}
use reposync.Sync.Diff.{CopyOperation}

pub record FileSpec : Type 0 where
  pub path : Text
  pub hash : Hash
  pub size : ℕ

abbrev pub package_file : Package → FileSpec
package_file p = record { path = p.path; hash = p.hash; size = p.size }

abbrev pub index_file : IndexFile → FileSpec
index_file i = record { path = i.path; hash = i.hash; size = i.size }

abbrev pub operation_file : CopyOperation → FileSpec
operation_file o = record { path = o.path; hash = o.hash; size = o.size }

abbrev pub collection_files : Collection → List FileSpec
collection_files c = map package_file c.packages ++ map index_file c.indexes

abbrev pub all_files : List Collection → List FileSpec
all_files [] = []
all_files (c ∷ cs) = collection_files c ++ all_files cs

abbrev pub repository_files : Repository → List FileSpec
repository_files r = all_files r.collections
