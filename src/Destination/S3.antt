-- ===== src/Destination/S3.antt =====
-- `S3Destination` of src/destination.rs: a bucket behind an optional cloudfront cache.
pub mod Retry
pub mod Files
pub mod Lawful
use reposync.Base.{
  ℕ, zero, suc, ◌+◌, Bool, Option, none, some, List, [], ◌∷◌, ◌++◌, map, Text, lit, ◌==◌, text_eq,
  if◌then◌else◌, is_some,
}
use reposync.Base.Outcome.{Outcome, ok, err, panic, IoError, io_error, other}
use reposync.Base.Crates.{Reader}
use reposync.Base.Dict.{insert, remove}
use reposync.World.{World, Io, pure, abort, ◌>>=◌, ◌>>◌}
use reposync.World.Files.{fs_call}
use reposync.Destination.{Destination}

pub record S3Destination : Type 0 where
  pub path : Text
  pub s3_endpoint : Text
  pub s3_bucket : Text
  pub cloudfront_endpoint : Option Text
  pub cloudfront_arn : Option Text
  pub region_name : Text
  pub access_key_id : Text
  pub access_key_secret : Text
  pub max_retries : ℕ
  pub retry_sleep : ℕ

-- `S3Destination::s3_path`
unfoldable pub s3_path : S3Destination → Text → Text
unfolding lit
s3_path d path = if d.path == [] then path else d.path ++ lit "/" ++ path

-- The error of this call of the cloud, if it has one.
cloud_call : World → Option Text × World
cloud_call w = (w.cloud_fault w.cloud_calls, record w { cloud_calls = w.cloud_calls + 1 })

-- The loop over the attempts that are left, which `upload`, `delete` and `invalidate` share: an
-- attempt gives the error of its request, if it has one. The waits between them change nothing.
pub retry_loop : Io (Option Text) → Text → ℕ → Option IoError → Io (Unit {0})
retry_loop attempt message zero none w = (panic, w)
retry_loop attempt message zero (some e) w = (err e, w)
retry_loop attempt message (suc n) last w =
    let (r, w') = attempt w in
    elim r [
      | ok none ↦ (ok tt, w')
      | ok (some e) ↦ retry_loop attempt message n (some (io_error other (message ++ e))) w'
      | err e ↦ (err e, w')
      | panic ↦ (panic, w')
    ]

-- `put_object`: the body is streamed, and a failure of the stream fails the request.
pub put_object : Text → Reader → Io (Option Text)
unfolding cloud_call
put_object key body w =
    let (e, w') = cloud_call w in
    elim e [
      | some e ↦ (ok (some e), w')
      | none ↦ elim body.failure [
        | some e ↦ (ok (some e), w')
        | none ↦ (ok none, record w' { bucket = insert key body.content w'.bucket })
      ]
    ]

pub delete_object : Text → Io (Option Text)
unfolding cloud_call
delete_object key w =
    let (e, w') = cloud_call w in
    elim e [
      | some e ↦ (ok (some e), w')
      | none ↦ (ok none, record w' { bucket = remove key w'.bucket })
    ]

pub create_invalidation : List Text → Io (Option Text)
unfolding cloud_call
create_invalidation items w =
    let (e, w') = cloud_call w in
    elim e [
      | some e ↦ (ok (some e), w')
      | none ↦ (ok none, record w' { invalidated = w'.invalidated ++ items ∷ [] })
    ]

-- `S3Destination::upload`: the length is asked for once, and every attempt starts with a `seek`.
unfoldable pub upload : S3Destination → Text → Reader → Io (Unit {0})
unfolding retry_loop put_object fs_call
upload d path file = do
  fs_call
  retry_loop (do fs_call; put_object (s3_path d path) file) (lit "upload failed: ") d.max_retries
      none

-- `S3Destination::delete`
unfoldable pub delete : S3Destination → Text → Io (Unit {0})
unfolding retry_loop delete_object
delete d path =
    retry_loop (delete_object (s3_path d path)) (lit "delete failed: ") d.max_retries none

-- The request of `invalidate`, once there is a client and there are paths.
pub invalidate_paths : S3Destination → List Text → Io (Unit {0})
unfolding retry_loop create_invalidation s3_path
invalidate_paths d [] = pure tt
invalidate_paths d (p ∷ ps) =
    retry_loop (create_invalidation (map (λ path. lit "/" ++ s3_path d path) (p ∷ ps)))
      (lit "cloudfront invalidation failed: ") d.max_retries none

-- `S3Destination::invalidate`: without a distribution there is nothing to do, and a distribution
-- without an endpoint is a panic of `cloudfront_client`.
unfoldable pub invalidate : S3Destination → List Text → Io (Unit {0})
unfolding invalidate_paths
invalidate d paths = elim d.cloudfront_arn [
  | none ↦ pure tt
  | some arn ↦ if is_some d.cloudfront_endpoint then invalidate_paths d paths else abort
]

-- `impl Destination for S3Destination`
unfoldable pub s3_destination : S3Destination → Destination
unfolding upload delete invalidate
s3_destination d = record {
  upload = upload d;
  delete = delete d;
  invalidate = invalidate d;
  name = d.s3_endpoint ++ lit "/" ++ d.s3_bucket;
}
