-- ===== src/State/Replace.antt =====
-- `LiveRepoMetadataStore::replace` of src/state.rs.
use reposync.Base.{ℕ, ◌+◌, ◌≡◌, refl, true, false, none, some, Text, lit, ◌++◌}
use reposync.Base.Outcome.{ok, err, IoError}
use reposync.World.{World, dir, try, ◌>>=◌}
use reposync.World.Preorder.{Keeps, Keeps-bind, Keeps-pure, Keeps-try, Keeps-if}
use reposync.World.Files.{node, components, is_empty_dir}
use reposync.World.Files.Calls.{called, open_file-dir, rename-refused}
use reposync.World.Files.Frame.{open_file-SameFiles}
use reposync.World.Files.Bucket.{
  SameBucket, bucket-preorder, SameFiles-bucket, remove_dir_all-bucket, rename-bucket,
}
use reposync.State.{LiveRepoMetadataStore, exists, replace}

pub exists-bucket : (p : Text) → Keeps SameBucket (exists p)
unfolding exists
exists-bucket p =
    Keeps-bind bucket-preorder _ _ (Keeps-try _ (SameFiles-bucket (open_file-SameFiles p)))
      (λ r. Keeps-pure bucket-preorder _)

-- The replacement of the stored state leaves the bucket alone.
pub replace-bucket :
    (store : LiveRepoMetadataStore) (path : Text) → Keeps SameBucket (replace store path)
unfolding replace
replace-bucket store path = Keeps-bind bucket-preorder _ _ (exists-bucket path) λ existed.
    Keeps-bind bucket-preorder _ _
      (Keeps-if existed _ _ (rename-bucket path (path ++ lit "__")) (Keeps-pure bucket-preorder tt))
      λ _. Keeps-bind bucket-preorder _ _ (rename-bucket store.tmp_directory path) λ _.
        Keeps-if existed _ _ (remove_dir_all-bucket (path ++ lit "__"))
          (Keeps-pure bucket-preorder tt)

module _ (store : LiveRepoMetadataStore) (path : Text) (w : World) where
  exists-dir :
      w.fs_fault w.fs_calls ≡ none
      → node w.fs (components path) ≡ some dir
      → exists path w ≡ (ok true, called w)
  unfolding exists ◌>>=◌
  exists-dir no_fault e = let (r, o) = open_file-dir w no_fault path e in rw (◌>>=◌, try, o) refl

  -- A directory that an earlier replacement has left beside the stored state, with an entry in it,
  -- fails the replacement, though no call of the file system fails by itself; no file changes, so
  -- that every later replacement fails too.
  pub replace-stuck :
      ((k : ℕ) → w.fs_fault k ≡ none)
      → node w.fs (components path) ≡ some dir
      → node w.fs (components (path ++ lit "__")) ≡ some dir
      → is_empty_dir (components (path ++ lit "__")) w.fs ≡ false
      → (e : IoError) × (replace store path w ≡ (err e, called (called w)))
  unfolding replace ◌>>=◌
  replace-stuck no_fault e f g =
      let (x, r) =
        rename-refused (called w) (no_fault (w.fs_calls + 1)) path (path ++ lit "__") e f g in
      (x, rw (◌>>=◌, exists-dir (no_fault w.fs_calls) e, r) refl)
