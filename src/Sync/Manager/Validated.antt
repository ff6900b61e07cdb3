-- ===== src/Sync/Manager/Validated.antt =====
-- The validation of the signatures in `sync_repo_internal` of src/sync.rs.
use reposync.Base.{◌⊎◌, inl, inr, ◌≡◌, sym, ◌∙◌, ap, some, List, [], ◌∷◌, Text, All, All-map, arith}
use reposync.Base.Outcome.{IoError, Outcome, Result, ok, err, panic}
use reposync.Base.Crates.{Crates, Reader}
use reposync.World.Files.{components}
use reposync.World.Files.Opened.{open_file-content}
use reposync.World.Files.Frame.{content, SameFiles, open_file-SameFiles}
use reposync.World.Preorder.{Keeps-unwrap}
use reposync.Packages.{unsigned, IndexFile, Repository, signature_matches}
use reposync.Packages.Signed.{IsSigned, signature_matches-IsSigned, signature_matches_sound}
use reposync.World.{World, Io, unwrapped, lift, unwrap}
use reposync.World.Bind.{Returns, bind-Returns}
use reposync.World.Files.{open_file}
use reposync.Sync.Manager.{validation, verify_indexes, all_indexes, validate}

module _ ⦃lib : Crates⦄ (key : Text) where
  -- The index has no signature, or it is one of the key for what the file of the index contains.
  abbrev pub IsAuthentic : World → IndexFile → Type 0
  IsAuthentic w index =
      (index.signature ≡ unsigned)
      ⊎ ((r : Reader) × (content w (components index.file_path) ≡ some r.content)
          × IsSigned key index.signature r)

  validation-ok : (path : Text) (r : Result (Unit {0})) → validation path r ≡ ok tt → r ≡ ok tt
  unfolding validation
  validation-ok path (ok x) h = h
  validation-ok path (err e) h = cc
  validation-ok path panic h = cc

  lift-ok : (r : Result (Unit {0})) (w w' : World) → Returns (lift r) w tt w' → r ≡ ok tt
  unfolding lift
  lift-ok r w w' h = λ i. (h i).0

  unwrapped-ok :
      (m : Io Reader) (r : Reader) (w w' : World)
      → Returns (unwrap {F = IoError} m) w r w'
      → Returns m w r w'
  unfolding unwrap
  unwrapped-ok m r w w' h = λ i. (go (m w).0 (λ j. (h j).0) i, (h i).1)
    where
      go : (o : Outcome IoError Reader) → unwrapped {F = IoError} o ≡ ok r → o ≡ ok r
      go (ok a) e = ap (λ (z : Outcome IoError Reader). z) e
      go (err x) e = absurd (ground arith)
      go panic e = absurd (ground arith)

  verified-IsAuthentic :
      (index : IndexFile) (r : Reader) (w w' : World)
      → Returns (unwrap {F = IoError} (open_file index.file_path)) w r w'
      → signature_matches index.signature key r ≡ ok tt
      → IsAuthentic w index
  verified-IsAuthentic index r w w' opened h =
      elim (signature_matches_sound key index.signature r h) [
        | inl e ↦ inl e
        | inr sound ↦ inr (
          r,
          open_file-content index.file_path r w w' (unwrapped-ok _ r w w' opened) sound,
          signature_matches-IsSigned key index.signature r h,
        )
      ]

  IsAuthentic-SameFiles :
      (w w' : World)
      → SameFiles w w'
      → (index : IndexFile) → IsAuthentic w' index
      → IsAuthentic w index
  IsAuthentic-SameFiles w w' s index (inl e) = inl e
  IsAuthentic-SameFiles w w' s index (inr (r, read, signed)) =
      inr (r, sym (s.contents (components index.file_path)) ∙ read, signed)

  verify_indexes-IsAuthentic :
      (indexes : List IndexFile) (w w' : World)
      → Returns (verify_indexes key indexes) w tt w'
      → All (IsAuthentic w) indexes
  unfolding verify_indexes unwrap lift
  verify_indexes-IsAuthentic [] w w' h = tt
  verify_indexes-IsAuthentic (index ∷ rest) w w' h =
      let (r, opened, h₁) = bind-Returns (unwrap (open_file index.file_path)) _ w w' tt h in
      let (_, h₂, h₃) =
        bind-Returns (lift (validation index.path (signature_matches index.signature key r))) _ _ w'
          tt h₁ in
      let u = (unwrap {F = IoError} (open_file index.file_path) w).1 in
      let same =
        (Keeps-unwrap {F = IoError} (open_file index.file_path)
            (open_file-SameFiles index.file_path)).at
          w in
      (
        verified-IsAuthentic index r w u opened (validation-ok index.path _ (lift-ok _ _ _ h₂)),
        All-map _ _ (IsAuthentic-SameFiles w u same) rest (verify_indexes-IsAuthentic rest u w' h₃),
      )

  -- With a public key, a validation that ends well has checked every index: an external signature
  -- is one of the key over the file of the index, an embedded one over the body that was found in
  -- it; of an index without a signature nothing is asked.
  pub validate-IsAuthentic :
      (repo : Repository) (w w' : World)
      → Returns (validate (some key) repo) w tt w'
      → All (IsAuthentic w) (all_indexes repo.collections)
  unfolding validate
  validate-IsAuthentic repo w w' h =
      verify_indexes-IsAuthentic (all_indexes repo.collections) w w' h
