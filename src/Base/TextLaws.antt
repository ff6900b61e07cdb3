-- ===== src/Base/TextLaws.antt =====
-- Laws of `starts_with` and of `splitn`.
use reposync.Base.{
  ◌≡◌, refl, ◌∙◌, ap, true, some, [], ◌∷◌, ◌++◌, inl, inr, Text, starts_with, split_once, drop_text,
  ℕ_eq, eq_of_==, arith, Bool-cases,
}

pub starts_with-drop_text : (p s : Text) → starts_with s p ≡ true → s ≡ p ++ drop_text p s
unfolding starts_with drop_text
starts_with-drop_text [] s h = refl
starts_with-drop_text (x ∷ p) [] h = absurd (ground arith)
starts_with-drop_text (x ∷ p) (c ∷ s) h =
    let e : c ≡ x = eq_of_== c x (ground arith) in
    let rest : s ≡ p ++ drop_text p s = starts_with-drop_text p s (ground arith) in
    λ i. e i ∷ rest i

-- The two parts stand around the separator.
pub split_once-append :
    (sep s b : Text) → (split_once sep s).1 ≡ some b → s ≡ (split_once sep s).0 ++ (sep ++ b)
unfolding split_once starts_with
split_once-append [] [] b h = let e : [] ≡ b = ground arith in e
split_once-append (x ∷ sep) [] b h = absurd (ground arith)
split_once-append sep (c ∷ s) b h = elim (Bool-cases (starts_with (c ∷ s) sep)) [
  | inl t ↦
      let e : drop_text sep (c ∷ s) ≡ b = ground arith in
      rw (split_once, t) (starts_with-drop_text sep (c ∷ s) t ∙ ap (λ z. sep ++ z) e)
  | inr f ↦ rw (split_once, f) (ap (◌∷◌ c) (split_once-append sep s b (rw (split_once, f) at h)))
]
