-- ===== src/Destination/S3/Files.antt =====
-- `S3Destination` of src/destination.rs leaves the files of the local file system alone.
use reposync.Base.{
  none, List, [], ◌∷◌, ◌++◌, map, Text, lit, arith, is_some, Option-cases, inl, inr,
}
use reposync.Base.Crates.{Reader}
use reposync.World.Preorder.{
  IsPreorder, Keeps, Keeps-bind, Keeps-pure, Keeps-abort, Keeps-if, SameAt-preorder,
}
use reposync.World.Files.Frame.{content, fs_call-SameFiles}
use reposync.World.Files.Writes.{SameContent, SameFiles-content}
use reposync.Destination.S3.{
  S3Destination, s3_path, put_object, delete_object, create_invalidation, upload, delete,
  invalidate_paths, invalidate,
}
use reposync.Destination.S3.Retry.{Keeps-retry}

module _ (d : S3Destination) (q : List Text) where
  abbrev P : IsPreorder (SameContent q)
  P = SameAt-preorder (λ w. content w q)

  put_object-SameContent : (key : Text) (r : Reader) → Keeps (SameContent q) (put_object key r)
  unfolding put_object
  put_object-SameContent key r = record { at = λ w. ground arith }

  delete_object-SameContent : (key : Text) → Keeps (SameContent q) (delete_object key)
  unfolding delete_object
  delete_object-SameContent key = record { at = λ w. ground arith }

  create_invalidation-SameContent :
      (items : List Text) → Keeps (SameContent q) (create_invalidation items)
  unfolding create_invalidation
  create_invalidation-SameContent items = record { at = λ w. ground arith }

  pub upload-SameContent : (p : Text) (r : Reader) → Keeps (SameContent q) (upload d p r)
  unfolding upload
  upload-SameContent p r =
      let call = SameFiles-content q fs_call-SameFiles in
      Keeps-bind P _ _ call λ _.
        Keeps-retry _ _ P (Keeps-bind P _ _ call λ _. put_object-SameContent (s3_path d p) r)
          d.max_retries none

  pub delete-SameContent : (p : Text) → Keeps (SameContent q) (delete d p)
  unfolding delete
  delete-SameContent p =
      Keeps-retry _ _ P (delete_object-SameContent (s3_path d p)) d.max_retries none

  invalidate_paths-SameContent : (ps : List Text) → Keeps (SameContent q) (invalidate_paths d ps)
  unfolding invalidate_paths
  invalidate_paths-SameContent [] = Keeps-pure P tt
  invalidate_paths-SameContent (p ∷ ps) =
      Keeps-retry _ (lit "cloudfront invalidation failed: ") P
        (create_invalidation-SameContent (map (λ path. lit "/" ++ s3_path d path) (p ∷ ps)))
        d.max_retries none

  pub invalidate-SameContent : (ps : List Text) → Keeps (SameContent q) (invalidate d ps)
  unfolding invalidate
  invalidate-SameContent ps = elim (Option-cases d.cloudfront_arn) [
    | inl e ↦ rw e (Keeps-pure P tt)
    | inr (arn, e) ↦ rw e (
        Keeps-if (is_some d.cloudfront_endpoint) _ _ (invalidate_paths-SameContent ps)
          (Keeps-abort P))
  ]
