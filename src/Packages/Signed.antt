-- ===== src/Packages/Signed.antt =====
-- What a signature says, when `Signature::matches` of src/packages.rs accepts it.
use reposync.Base.{refl, ◌⊎◌, ◌≡◌, ap, ◌∙◌, true, none, some, Text, Option-cases, inl, inr, arith}
use reposync.Base.Outcome.{ok, >>=-eq-ok}
use reposync.Base.Crates.{Crates, Reader}
use reposync.Packages.{
  Signature, pgp_embedded, pgp_external, unsigned, signature_matches, extract_body_and_signature,
  read_all, read_text, match_internal,
}

module _ ⦃lib : Crates⦄ (key : Text) where
  -- A signature is one, and it is of the key over the data.
  abbrev pub Signs : Text → Text → Type 0
  Signs signature bytes =
      (lib.is_signature signature ≡ true) × (lib.verify_error signature key bytes ≡ none)

  -- What the signature of an index says of the file that was read.
  abbrev pub IsSigned : Signature → Reader → Type 0
  IsSigned pgp_embedded r =
      (body : Text) × (signature : Text) × (extract_body_and_signature r.content
        ≡ some (body, signature))
      × Signs signature body
  IsSigned (pgp_external signature) r = Signs signature r.content
  IsSigned unsigned r = Unit

  match_internal-Signs :
      (signature bytes : Text) → match_internal key signature bytes ≡ ok tt → Signs signature bytes
  unfolding match_internal
  match_internal-Signs signature bytes h = ground arith

  read_all-content : (r : Reader) (text : Text) → read_all r ≡ ok text → r.content ≡ text
  unfolding read_all
  read_all-content r text h = ground arith

  read_text-content : (r : Reader) (text : Text) → read_text r ≡ ok text → r.content ≡ text
  unfolding read_text read_all
  read_text-content r text h = ground arith

  read_all_sound : (r : Reader) (text : Text) → read_all r ≡ ok text → r.failure ≡ none
  unfolding read_all
  read_all_sound r text h = ground arith

  read_text_sound : (r : Reader) (text : Text) → read_text r ≡ ok text → r.failure ≡ none
  unfolding read_text read_all
  read_text_sound r text h = ground arith

  -- A signature that is there is accepted only of a file that was read to its end.
  pub signature_matches_sound :
      (signature : Signature) (r : Reader)
      → signature_matches signature key r ≡ ok tt
      → (signature ≡ unsigned) ⊎ (r.failure ≡ none)
  unfolding signature_matches
  signature_matches_sound unsigned r h = inl refl
  signature_matches_sound (pgp_external signature) r h =
      let (bytes, e, f) = >>=-eq-ok (read_all r) _ h in inr (read_all_sound r bytes e)
  signature_matches_sound pgp_embedded r h =
      let (text, e, f) = >>=-eq-ok (read_text r) _ h in inr (read_text_sound r text e)

  pub signature_matches-IsSigned :
      (signature : Signature) (r : Reader)
      → signature_matches signature key r ≡ ok tt
      → IsSigned signature r
  unfolding signature_matches
  signature_matches-IsSigned unsigned r h = tt
  signature_matches-IsSigned (pgp_external signature) r h =
      let (bytes, e, f) = >>=-eq-ok (read_all r) _ h in
      rw (read_all-content r bytes e) (match_internal-Signs signature bytes f)
  signature_matches-IsSigned pgp_embedded r h =
      let (text, e, f) = >>=-eq-ok (read_text r) _ h in
      elim (Option-cases (extract_body_and_signature text)) [
        | inl n ↦ absurd (let g = rw n at f in ground arith)
        | inr ((body, signature), g) ↦ (
          body,
          signature,
          ap extract_body_and_signature (read_text-content r text e) ∙ g,
          match_internal-Signs signature body (rw g at f),
        )
      ]
