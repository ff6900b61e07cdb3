-- ===== src/Packages/Pgp.antt =====
-- `Signature::extract_body_and_signature` of src/packages.rs.
use reposync.Base.{
  ◌≡◌, refl, sym, ◌∙◌, ap, Option, none, some, ◌∷◌, ◌++◌, Text, split_once, arith, inl, inr,
  Option-cases,
}
use reposync.Base.TextLaws.{split_once-append}
use reposync.Packages.{blank_line, marker, marker_line, signature_of, extract_body_and_signature}

signature_of-parts :
    (second : Text) (p : Text × Option Text) (body signature : Text)
    → ((b : Text) → p.1 ≡ some b → second ≡ p.0 ++ (marker_line ++ b))
    → signature_of p ≡ some (body, signature)
    → (rest : Text) × (signature ≡ marker ++ rest) × (second ≡ body ++ (10 ∷ signature))
unfolding signature_of
signature_of-parts second (a, none) body signature law h = absurd (ground arith)
signature_of-parts second (a, some rest) body signature law h =
    let e : a ≡ body = ground arith in
    let f : marker ++ rest ≡ signature = ground arith in
    (rest, sym f, law rest refl ∙ (λ i. e i ++ (10 ∷ f i)))

-- The body whose signature is checked is a part of the file: it starts behind a blank line, and the
-- signature, which starts with the marker, follows it behind a line break, up to the end.
pub extract_body_and_signature-parts :
    (text body signature : Text)
    → extract_body_and_signature text ≡ some (body, signature)
    → (head : Text) × (rest : Text) × (signature ≡ marker ++ rest)
      × (text ≡ head ++ (blank_line ++ (body ++ (10 ∷ signature))))
unfolding extract_body_and_signature
extract_body_and_signature-parts text body signature h =
    elim (Option-cases (split_once blank_line text).1) [
      | inl e ↦ absurd (let k = rw (extract_body_and_signature, e) at h in ground arith)
      | inr (second, e) ↦
          (let (rest, s, t) =
              signature_of-parts second (split_once marker_line second) body signature
                (split_once-append marker_line second) (rw (extract_body_and_signature, e) at h) in
            (
              (split_once blank_line text).0,
              rest,
              s,
              split_once-append blank_line text second e
                  ∙ ap (λ z. (split_once blank_line text).0 ++ (blank_line ++ z)) t,
            ))
    ]
