-- ===== src/Destination/Local/Lawful.antt =====
-- `LocalDestination` of src/destination.rs keeps the laws of a destination.
use mathlib.Core.Path.{subst}
use reposync.Base.{
  ◌≡◌, ◌≢◌, refl, sym, ◌∙◌, ap, false, none, some, List, Text, ◌==◌, texts_eq, eq_of_==, ==_self,
  Bool-cases, inl, inr, arith, if◌then◌else◌,
}
use reposync.Base.Outcome.{ok}
use reposync.Base.Crates.{Reader}
use reposync.World.{World, pure}
use reposync.World.Preorder.{Keeps, Keeps-bind, Keeps-pure, SameAt-preorder}
use reposync.World.Bind.{bind-Returns, pure-Returns}
use reposync.World.Files.{components, parent, create_dirs, write_file}
use reposync.World.Files.Frame.{content, create_dirs-SameFiles}
use reposync.World.Files.Writes.{
  SameContent, SameFiles-content, write_file-ne, write_file-ok, remove_file-ne, remove_file-ok,
}
use reposync.Destination.{IsLawful}
use reposync.Destination.Local.{
  LocalDestination, local_path, upload, delete, invalidate, local_destination,
}

differs : (a b : List Text) → a ≢ b → (a == b) ≡ false
differs a b n = elim (Bool-cases (a == b)) [ inl e ↦ absurd (n (eq_of_== a b e)) | inr e ↦ e ]

module _ (d : LocalDestination) where
  abbrev pub place : Text → List Text
  place p = components (local_path d p)

  pub upload-ne :
      (p : Text) (r : Reader) (q : List Text) → place p ≢ q → Keeps (SameContent q) (upload d p r)
  unfolding upload
  upload-ne p r q n =
      let P = SameAt-preorder (λ w. content w q) in
      Keeps-bind P _ _ (SameFiles-content q (create_dirs-SameFiles (parent (place p)))) λ _.
        Keeps-bind P _ _ (write_file-ne (local_path d p) q r (differs (place p) q n))
          λ _. Keeps-pure P tt

  pub upload-ok :
      (p : Text) (r : Reader) (w : World)
      → (upload d p r w).0 ≡ ok tt
      → content (upload d p r w).1 (place p) ≡ some r.content
  unfolding upload
  upload-ok p r w h =
      let w' : World = (upload d p r w).1 in
      let (_, _, h₁) = bind-Returns (create_dirs (parent (place p))) _ w w' tt (λ i. (h i, w')) in
      let (n, e, h₂) = bind-Returns (write_file (local_path d p) r) _ _ w' tt h₁ in
      ap (λ z. content z (place p)) (sym (pure-Returns tt tt _ w' h₂).1)
      ∙ write_file-ok (local_path d p) r _ _ n e

  pub delete-ne : (p : Text) (q : List Text) → place p ≢ q → Keeps (SameContent q) (delete d p)
  unfolding delete
  delete-ne p q n = remove_file-ne (local_path d p) q (differs (place p) q n)

  pub delete-ok :
      (p : Text) (w : World) → (delete d p w).0 ≡ ok tt → content (delete d p w).1 (place p) ≡ none
  unfolding delete
  delete-ok p w h = remove_file-ok (local_path d p) w h

  pub invalidate-content :
      (ps : List Text) (w : World) (q : List Text) → content (invalidate d ps w).1 q ≡ content w q
  unfolding invalidate pure
  invalidate-content ps w q = refl

  -- A directory is a lawful destination.
  unfoldable pub local-IsLawful : IsLawful (local_destination d)
  unfolding local_destination local_path
  local-IsLawful = record {
    locate = place;
    view = content;
    upload_ok = upload-ok;
    upload_ne = λ p r w q n. (upload-ne p r q n).at w;
    delete_ok = delete-ok;
    delete_ne = λ p w q n. (delete-ne p q n).at w;
    view-invalidate = invalidate-content;
    view-SameFiles = λ w w' q s. s.contents q;
  }

  -- An upload to a directory that succeeds has stored the content of the file at its path, and has
  -- changed no other file.
  pub upload-content :
      (p : Text) (r : Reader) (w : World) (q : List Text)
      → (upload d p r w).0 ≡ ok tt
      → content (upload d p r w).1 q
        ≡ (if components (local_path d p) == q then some r.content else content w q)
  upload-content p r w q h = elim (Bool-cases (place p == q)) [
    | inl e ↦ rw e (
        subst (λ z. content (upload d p r w).1 z ≡ some r.content) (eq_of_== (place p) q e)
          (upload-ok p r w h))
    | inr n ↦ rw n ((upload-ne p r q (λ e. ground (arith, ==_self q))).at w)
  ]

  -- A deletion in a directory that succeeds has removed the file at its path, and has changed no
  -- other file.
  pub delete-content :
      (p : Text) (w : World) (q : List Text)
      → (delete d p w).0 ≡ ok tt
      → content (delete d p w).1 q
        ≡ (if components (local_path d p) == q then none else content w q)
  delete-content p w q h = elim (Bool-cases (place p == q)) [
    | inl e ↦
        rw e (
          subst (λ z. content (delete d p w).1 z ≡ none) (eq_of_== (place p) q e) (delete-ok p w h))
    | inr n ↦ rw n ((delete-ne p q (λ e. ground (arith, ==_self q))).at w)
  ]
