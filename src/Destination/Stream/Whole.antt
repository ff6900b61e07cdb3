-- ===== src/Destination/Stream/Whole.antt =====
-- The stream of src/destination.rs gives the whole file, or the error of a read.
use reposync.Base.{
  ℕ, zero, suc, ◌≤◌, ◌<◌, ◌≡◌, ◌≢◌, refl, ap, ◌∙◌, Option, none, some, List, [], ◌∷◌, ◌++◌, Text,
  arith, leb, length, take, All, Option-cases, Bool-cases, inl, inr,
}
use reposync.Base.Outcome.{Result, ok, err, panic, IoError}
use reposync.Destination.Stream.{
  FileAdapter, skip, read_size, polled, poll_next, with_chunk, collect,
}

abbrev pub concat : List Text → Text
concat [] = []
concat (c ∷ cs) = c ++ concat cs

abbrev pub IsChunk : Text → Type 0
IsChunk c = (c ≢ []) × (length c ≤ 4096)

-- The chunks make up the file, or a read failed; the stream has an end.
abbrev pub IsWhole : Text → (ℕ → Option IoError) → Option (Result (List Text)) → Type 0
IsWhole file faults (some (ok cs)) = (concat cs ≡ file) × All IsChunk cs
IsWhole file faults (some (err e)) = (n : ℕ) × (faults n ≡ some e)
IsWhole file faults (some panic) = ⊥
IsWhole file faults none = ⊥

take-skip : (n : ℕ) (s : Text) → take n s ++ skip n s ≡ s
unfolding skip
take-skip zero s = refl
take-skip (suc n) [] = refl
take-skip (suc n) (c ∷ s) = ap (◌∷◌ c) (take-skip n s)

length-take : (n : ℕ) (s : Text) → length (take n s) ≤ n
length-take zero s = omega arith
length-take (suc n) [] = omega arith
length-take (suc n) (c ∷ s) = omega (arith, length-take n s)

length-skip : (n : ℕ) (c : ℕ) (s : Text) → length (skip (suc n) (c ∷ s)) < length (c ∷ s)
unfolding skip
length-skip zero c s = omega arith
length-skip (suc n) c [] = omega arith
length-skip (suc n) c (d ∷ s) = omega (arith, length-skip n d s)

-- A buffer of one byte at least.
read_size_bounds : (g : ℕ) → (k : ℕ) × (read_size g ≡ suc k) × (suc k ≤ 4096)
unfolding read_size
read_size_bounds g = elim (Bool-cases (leb (suc g) 4096)) [
  | inl h ↦ (g, rw h refl, ground arith)
  | inr h ↦ (4095, rw h refl, omega arith)
]

with_chunk-IsWhole :
    (c s file : Text) (faults : ℕ → Option IoError) (r : Option (Result (List Text)))
    → IsChunk c
    → c ++ s ≡ file
    → IsWhole s faults r
    → IsWhole file faults (with_chunk c r)
unfolding with_chunk
with_chunk-IsWhole c s file faults (some (ok cs)) h e (f, all) = (ap (λ z. c ++ z) f ∙ e, (h, all))
with_chunk-IsWhole c s file faults (some (err x)) h e f = f
with_chunk-IsWhole c s file faults (some panic) h e f = f
with_chunk-IsWhole c s file faults none h e f = f

module _ (fuel : ℕ) (faults : ℕ → Option IoError) (grants : ℕ → ℕ) (n : ℕ) where
  collect_error :
      (e : IoError) (a : FileAdapter)
      → faults n ≡ some e
      → collect (suc fuel) faults grants n a ≡ some (err e)
  unfolding collect poll_next
  collect_error e a h = ground (arith, h)

  collect_end :
      (k : ℕ)
      → faults n ≡ none
      → read_size (grants n) ≡ suc k
      → collect (suc fuel) faults grants n (record { file = [] }) ≡ some (ok [])
  unfolding collect poll_next polled
  collect_end k h size = ground (arith, h, size)

  collect_more :
      (k c : ℕ) (s : Text)
      → faults n ≡ none
      → read_size (grants n) ≡ suc k
      → collect (suc fuel) faults grants n (record { file = c ∷ s })
        ≡ with_chunk
            (take (suc k) (c ∷ s))
            (collect fuel faults grants (suc n) (record { file = skip (suc k) (c ∷ s) }))
  unfolding collect poll_next polled
  collect_more k c s h size = ground (arith, h, size)

-- Whatever the reads grant, the stream ends, and its chunks, none empty and none longer than the
-- buffer, make up the file in order, or it ends by the error of a read that failed.
pub collect-IsWhole :
    (fuel : ℕ) (faults : ℕ → Option IoError) (grants : ℕ → ℕ) (n : ℕ) (file : Text)
    → length file < fuel
    → IsWhole file faults (collect fuel faults grants n (record { file = file }))
collect-IsWhole zero faults grants n file h = absurd (omega arith)
collect-IsWhole (suc fuel) faults grants n [] h =
    let (k, size, _) = read_size_bounds (grants n) in
    elim (Option-cases (faults n)) [
      | inl fine ↦ rw (collect_end fuel faults grants n k fine size) (refl, tt)
      | inr (e, failed) ↦ rw (collect_error fuel faults grants n e _ failed) (n, failed)
    ]
collect-IsWhole (suc fuel) faults grants n (c ∷ s) h =
    let (k, size, small) = read_size_bounds (grants n) in
    elim (Option-cases (faults n)) [
      | inl fine ↦
          let rest = skip (suc k) (c ∷ s) in
          rw (collect_more fuel faults grants n k c s fine size) (
            with_chunk-IsWhole (take (suc k) (c ∷ s)) rest (c ∷ s) faults _
              (λ e. cc, omega (arith, length-take (suc k) (c ∷ s))) (take-skip (suc k) (c ∷ s))
              (collect-IsWhole fuel faults grants (suc n) rest (omega (arith, length-skip k c s))))
      | inr (e, failed) ↦ rw (collect_error fuel faults grants n e _ failed) (n, failed)
    ]
