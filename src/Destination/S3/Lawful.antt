-- ===== src/Destination/S3/Lawful.antt =====
-- `S3Destination` of src/destination.rs keeps the laws of a destination.
use mathlib.Core.Path.{subst}
use reposync.Base.{
  ◌≡◌, refl, ap, ◌≢◌, inl, inr, false, Option, none, some, List, [], ◌∷◌, Text, ◌++◌, ◌==◌, text_eq,
  ==_self, lit, eq_of_==, arith, map, Option-cases, Bool-cases, if◌then◌else◌, is_some,
}
use reposync.Base.Outcome.{ok}
use reposync.Base.Crates.{Reader}
use reposync.Base.Dict.{get, get-insert, get-remove}
use reposync.World.{World, Io, ◌>>◌}
use reposync.World.Preorder.{
  Keeps, IsPreorder, SameAt, SameAt-preorder, Keeps-bind, Keeps-pure, Keeps-abort, Keeps-if,
}
use reposync.World.Bind.{bind-Returns}
use reposync.World.Files.{fs_call}
use reposync.World.Files.Frame.{fs_call-SameFiles}
use reposync.Destination.{IsLawful}
use reposync.Destination.S3.{
  S3Destination, s3_path, retry_loop, put_object, delete_object, create_invalidation, upload,
  delete, invalidate_paths, invalidate, s3_destination,
}
use reposync.Destination.S3.Retry.{Keeps-retry, retry-Succeeded}

-- The object at a place of one key.
abbrev pub object : World → List Text → Option Text
object w (k ∷ []) = get w.bucket k
object w _ = none

module _ (q : List Text) where
  P : IsPreorder (SameAt (λ w. object w q))
  P = SameAt-preorder (λ w. object w q)

pub object-bucket : (w w' : World) (q : List Text) → w'.bucket ≡ w.bucket → object w' q ≡ object w q
object-bucket w w' [] e = refl
object-bucket w w' (k ∷ []) e = ap (λ b. get b k) e
object-bucket w w' (k ∷ j ∷ ks) e = refl

fs_call-SameAt : (q : List Text) → Keeps (SameAt (λ w. object w q)) fs_call
fs_call-SameAt q = record {
  at = λ w. object-bucket w (fs_call w).1 q (fs_call-SameFiles.at w).bucket;
}

put_object-ne :
    (key : Text) (r : Reader) (q : List Text)
    → (key ∷ []) ≢ q
    → Keeps (SameAt (λ w. object w q)) (put_object key r)
unfolding put_object
put_object-ne key r [] n = record { at = λ w. ground arith }
put_object-ne key r (k ∷ []) n = record {
  at = λ w. ground (arith, get-insert key k r.content w.bucket, eq_of_== key k);
}
put_object-ne key r (k ∷ j ∷ ks) n = record { at = λ w. ground arith }

delete_object-ne :
    (key : Text) (q : List Text)
    → (key ∷ []) ≢ q
    → Keeps (SameAt (λ w. object w q)) (delete_object key)
unfolding delete_object
delete_object-ne key [] n = record { at = λ w. ground arith }
delete_object-ne key (k ∷ []) n = record {
  at = λ w. ground (arith, get-remove key k w.bucket, eq_of_== key k);
}
delete_object-ne key (k ∷ j ∷ ks) n = record { at = λ w. ground arith }

create_invalidation-SameAt :
    (items : List Text) (q : List Text)
    → Keeps (SameAt (λ w. object w q)) (create_invalidation items)
unfolding create_invalidation
create_invalidation-SameAt items [] = record { at = λ w. ground arith }
create_invalidation-SameAt items (k ∷ []) = record { at = λ w. ground arith }
create_invalidation-SameAt items (k ∷ j ∷ ks) = record { at = λ w. ground arith }

put_object-ok :
    (key : Text) (r : Reader) (w : World)
    → (put_object key r w).0 ≡ ok none
    → get (put_object key r w).1.bucket key ≡ some r.content
unfolding put_object
put_object-ok key r w h = ground (arith, get-insert key key r.content w.bucket, ==_self key)

delete_object-ok :
    (key : Text) (w : World)
    → (delete_object key w).0 ≡ ok none
    → get (delete_object key w).1.bucket key ≡ none
unfolding delete_object
delete_object-ok key w h = ground (arith, get-remove key key w.bucket, ==_self key)

other-key : (a b : Text) → (a == b) ≡ false → ◌≢◌ {A = List Text} (a ∷ []) (b ∷ [])
other-key a b h e = let f : a ≡ b = ground arith in ground (arith, ==_self a)

module _ (d : S3Destination) where
  abbrev pub key_of : Text → List Text
  key_of p = s3_path d p ∷ []

  pub upload-ne :
      (p : Text) (r : Reader) (q : List Text)
      → key_of p ≢ q
      → Keeps (SameAt (λ w. object w q)) (upload d p r)
  unfolding upload
  upload-ne p r q n = Keeps-bind (P q) _ _ (fs_call-SameAt q) λ _.
      Keeps-retry _ _ (P q)
        (Keeps-bind (P q) _ _ (fs_call-SameAt q) (λ _. put_object-ne (s3_path d p) r q n))
        d.max_retries none

  pub delete-ne :
      (p : Text) (q : List Text) → key_of p ≢ q → Keeps (SameAt (λ w. object w q)) (delete d p)
  unfolding delete
  delete-ne p q n = Keeps-retry _ _ (P q) (delete_object-ne (s3_path d p) q n) d.max_retries none

  invalidate_paths-SameAt :
      (ps : List Text) (q : List Text) → Keeps (SameAt (λ w. object w q)) (invalidate_paths d ps)
  unfolding invalidate_paths
  invalidate_paths-SameAt [] q = Keeps-pure (P q) tt
  invalidate_paths-SameAt (p ∷ ps) q =
      Keeps-retry _ (lit "cloudfront invalidation failed: ") (P q)
        (create_invalidation-SameAt (map (λ path. lit "/" ++ s3_path d path) (p ∷ ps)) q)
        d.max_retries none

  pub invalidate-SameAt :
      (ps : List Text) (q : List Text) → Keeps (SameAt (λ w. object w q)) (invalidate d ps)
  unfolding invalidate
  invalidate-SameAt ps q = elim (Option-cases d.cloudfront_arn) [
    | inl e ↦ rw e (Keeps-pure (P q) tt)
    | inr (arn, e) ↦ rw e (
        Keeps-if (is_some d.cloudfront_endpoint) _ _ (invalidate_paths-SameAt ps q)
          (Keeps-abort (P q)))
  ]

  pub upload-ok :
      (p : Text) (r : Reader) (w : World)
      → (upload d p r w).0 ≡ ok tt
      → object (upload d p r w).1 (key_of p) ≡ some r.content
  unfolding upload
  upload-ok p r w h =
      let put : Io (Option Text) = (do fs_call; put_object (s3_path d p) r) in
      let loop = retry_loop put (lit "upload failed: ") d.max_retries none in
      let (_, _, h₁) = bind-Returns fs_call (λ _. loop) w _ tt (λ i. (h i, (upload d p r w).1)) in
      let v : World = (fs_call w).1 in
      let (u, e) =
        retry-Succeeded put (lit "upload failed: ") d.max_retries none v (λ i. (h₁ i).0) in
      let (_, _, e₁) = bind-Returns fs_call (λ _. put_object (s3_path d p) r) u _ none e in
      subst (λ z. object z (key_of p) ≡ some r.content) (λ i. (h₁ i).1)
        (subst (λ z. object z (key_of p) ≡ some r.content) (λ i. (e₁ i).1)
          (put_object-ok (s3_path d p) r (fs_call u).1 (λ i. (e₁ i).0)))

  pub delete-ok :
      (p : Text) (w : World) → (delete d p w).0 ≡ ok tt → object (delete d p w).1 (key_of p) ≡ none
  unfolding delete
  delete-ok p w h =
      let (u, e) =
        retry-Succeeded (delete_object (s3_path d p)) (lit "delete failed: ") d.max_retries none w
          h in
      subst (λ z. object z (key_of p) ≡ none) (λ i. (e i).1)
        (delete_object-ok (s3_path d p) u (λ i. (e i).0))

  -- A bucket is a lawful destination: an upload or a deletion that succeeds has changed the object
  -- of its path as told, after any number of failed attempts, and nothing changes other objects.
  unfoldable pub s3-IsLawful : IsLawful (s3_destination d)
  unfolding s3_destination
  s3-IsLawful = record {
    locate = key_of;
    view = object;
    upload_ok = upload-ok;
    upload_ne = λ p r w q n. (upload-ne p r q n).at w;
    delete_ok = delete-ok;
    delete_ne = λ p w q n. (delete-ne p q n).at w;
    view-invalidate = λ ps w q. (invalidate-SameAt ps q).at w;
    view-SameFiles = λ w w' q s. object-bucket w w' q s.bucket;
  }

  -- An upload that succeeds, after whatever failed attempts, has stored the content of the file as
  -- the object of its key, and has changed no other object.
  pub upload-get :
      (p : Text) (r : Reader) (w : World) (k : Text)
      → (upload d p r w).0 ≡ ok tt
      → get (upload d p r w).1.bucket k
        ≡ (if s3_path d p == k then some r.content else get w.bucket k)
  upload-get p r w k h = elim (Bool-cases (s3_path d p == k)) [
    | inl e ↦ rw e (
        subst (λ z. get (upload d p r w).1.bucket z ≡ some r.content) (eq_of_== (s3_path d p) k e)
          (upload-ok p r w h))
    | inr n ↦ rw n ((upload-ne p r (k ∷ []) (other-key (s3_path d p) k n)).at w)
  ]

  -- A deletion that succeeds, after whatever failed attempts, has removed the object of its key, and
  -- has changed no other object.
  pub delete-get :
      (p : Text) (w : World) (k : Text)
      → (delete d p w).0 ≡ ok tt
      → get (delete d p w).1.bucket k ≡ (if s3_path d p == k then none else get w.bucket k)
  delete-get p w k h = elim (Bool-cases (s3_path d p == k)) [
    | inl e ↦ rw e (
        subst (λ z. get (delete d p w).1.bucket z ≡ none) (eq_of_== (s3_path d p) k e)
          (delete-ok p w h))
    | inr n ↦ rw n ((delete-ne p (k ∷ []) (other-key (s3_path d p) k n)).at w)
  ]
