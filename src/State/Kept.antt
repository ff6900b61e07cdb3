-- ===== src/State/Kept.antt =====
-- The stores of src/state.rs: loading reads only, and a download leaves the bucket alone.
use reposync.Base.{Text, lit, contains_text}
use reposync.Base.Outcome.{Outcome, ok, err, panic, IoError}
use reposync.Base.Crates.{Crates, Reader}
use reposync.World.Preorder.{
  Keeps, Keeps-bind, Keeps-pure, Keeps-throw, Keeps-abort, Keeps-try, Keeps-unwrap, Keeps-if,
}
use reposync.World.Files.Frame.{
  SameFiles, SameFiles-preorder, fs_call-SameFiles, open_file-SameFiles, create_dir_all-SameFiles,
}
use reposync.World.Files.Bucket.{
  SameBucket, bucket-preorder, SameFiles-bucket, remove_dir_all-bucket, write_file-bucket,
}
use reposync.Fetcher.{Fetcher, FetchError}
use reposync.State.{
  SavedRepoMetadataStore, LiveRepoMetadataStore, saved_fetch, saved_read, live_stored, live_fetch,
  opened, live_read, live_new,
}
use reposync.State.Replace.{exists-bucket}

module _ ⦃lib : Crates⦄ where
  pub saved_fetch-SameFiles :
      (store : SavedRepoMetadataStore) (path : Text) → Keeps SameFiles (saved_fetch store path)
  unfolding saved_fetch
  saved_fetch-SameFiles store path =
      Keeps-bind SameFiles-preorder _ _ (open_file-SameFiles _) λ file.
        Keeps-bind SameFiles-preorder _ _ fs_call-SameFiles λ _. Keeps-pure SameFiles-preorder _

  pub saved_read-SameFiles :
      (store : SavedRepoMetadataStore) (path : Text) → Keeps SameFiles (saved_read store path)
  unfolding saved_read
  saved_read-SameFiles store path =
      Keeps-bind SameFiles-preorder _ _ (saved_fetch-SameFiles store path)
        λ _. Keeps-pure SameFiles-preorder _

  live_stored-bucket :
      (path file_path : Text) (r : Outcome FetchError Reader)
      → Keeps SameBucket (live_stored path file_path r)
  unfolding live_stored
  live_stored-bucket path file_path (ok reader) =
      Keeps-bind bucket-preorder _ _ (write_file-bucket file_path reader) λ size.
        Keeps-bind bucket-preorder _ _
          (Keeps-unwrap _ (SameFiles-bucket (open_file-SameFiles file_path)))
          λ _. Keeps-pure bucket-preorder _
  live_stored-bucket path file_path (err e) = Keeps-throw bucket-preorder _
  live_stored-bucket path file_path panic = Keeps-abort bucket-preorder

  pub live_fetch-bucket :
      (store : LiveRepoMetadataStore) (path : Text)
      → ((url : Text) → Keeps SameFiles (store.fetcher url))
      → Keeps SameBucket (live_fetch store path)
  unfolding live_fetch
  live_fetch-bucket store path quiet =
      Keeps-bind bucket-preorder _ _
        (SameFiles-bucket (create_dir_all-SameFiles store.tmp_directory))
        λ _.
          Keeps-bind bucket-preorder _ _ (Keeps-try _ (SameFiles-bucket (quiet _)))
            λ r. live_stored-bucket path _ r

  opened-bucket : (r : Outcome IoError Reader) → Keeps SameBucket (opened r)
  unfolding opened
  opened-bucket (ok file) = Keeps-pure bucket-preorder _
  opened-bucket (err e) = Keeps-pure bucket-preorder _
  opened-bucket panic = Keeps-abort bucket-preorder

  pub live_read-bucket :
      (store : LiveRepoMetadataStore) (path : Text) → Keeps SameBucket (live_read store path)
  unfolding live_read
  live_read-bucket store path =
      Keeps-bind bucket-preorder _ _ (Keeps-try _ (SameFiles-bucket (open_file-SameFiles _)))
        opened-bucket

pub live_new-bucket :
    (url directory : Text) (fetcher : Fetcher) → Keeps SameBucket (live_new url directory fetcher)
unfolding live_new
live_new-bucket url directory fetcher =
    Keeps-if (contains_text directory (lit "tmp")) _ _
      (Keeps-bind bucket-preorder _ _ (exists-bucket directory) λ left.
        Keeps-bind bucket-preorder _ _
          (Keeps-if left _ _ (remove_dir_all-bucket directory) (Keeps-pure bucket-preorder tt))
          λ _. Keeps-pure bucket-preorder _)
      (Keeps-abort bucket-preorder)
