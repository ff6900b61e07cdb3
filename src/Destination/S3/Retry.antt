-- ===== src/Destination/S3/Retry.antt =====
-- The retries of `S3Destination` in src/destination.rs.
use reposync.Base.{ℕ, zero, suc, ◌≡◌, refl, Option, none, some, Text, arith}
use reposync.Base.Outcome.{Outcome, ok, err, panic, IoError}
use reposync.World.{World, Io}
use reposync.World.Preorder.{IsPreorder, Keeps}
use reposync.Destination.S3.{retry_loop}

module _ (attempt : Io (Option Text)) (message : Text) where
  module _ {R : World → World → Type 0} (p : IsPreorder R) (h : Keeps R attempt) where
    turn-rel :
        (n : ℕ) (last : Option IoError) (w : World) (r : Outcome IoError (Option Text))
        → (attempt w).0 ≡ r
        → ((e : Option IoError) → R (attempt w).1 (retry_loop attempt message n e (attempt w).1).1)
        → R w (retry_loop attempt message (suc n) last w).1
    unfolding retry_loop
    turn-rel n last w (ok none) e rest = rw (retry_loop, e) (h.at w)
    turn-rel n last w (ok (some x)) e rest =
        rw (retry_loop, e) (p.rel_trans w _ _ (h.at w) (rest _))
    turn-rel n last w (err x) e rest = rw (retry_loop, e) (h.at w)
    turn-rel n last w panic e rest = rw (retry_loop, e) (h.at w)

    retry-rel :
        (n : ℕ) (last : Option IoError) (w : World) → R w (retry_loop attempt message n last w).1
    unfolding retry_loop
    retry-rel zero none w = p.rel_refl w
    retry-rel zero (some e) w = p.rel_refl w
    retry-rel (suc n) last w =
        turn-rel n last w (attempt w).0 refl (λ e. retry-rel n e (attempt w).1)

    -- What every attempt keeps, the loop keeps.
    pub Keeps-retry : (n : ℕ) (last : Option IoError) → Keeps R (retry_loop attempt message n last)
    Keeps-retry n last = record { at = retry-rel n last }

  -- The loop ends well with an attempt that ended well.
  abbrev pub Succeeded : World → Type 0
  Succeeded w' = (u : World) × (attempt u ≡ (ok none, w'))

  turn-ok :
      (n : ℕ) (last : Option IoError) (w : World) (r : Outcome IoError (Option Text))
      → (attempt w).0 ≡ r
      → ((e : Option IoError)
          → (retry_loop attempt message n e (attempt w).1).0 ≡ ok tt
          → Succeeded (retry_loop attempt message n e (attempt w).1).1)
      → (retry_loop attempt message (suc n) last w).0 ≡ ok tt
      → Succeeded (retry_loop attempt message (suc n) last w).1
  unfolding retry_loop
  turn-ok n last w (ok none) e rest h = rw (retry_loop, e) (w, λ i. (e i, (attempt w).1))
  turn-ok n last w (ok (some x)) e rest h = rw (retry_loop, e) (rest _ (rw (retry_loop, e) at h))
  turn-ok n last w (err x) e rest h = absurd (ground arith)
  turn-ok n last w panic e rest h = absurd (ground arith)

  pub retry-Succeeded :
      (n : ℕ) (last : Option IoError) (w : World)
      → (retry_loop attempt message n last w).0 ≡ ok tt
      → Succeeded (retry_loop attempt message n last w).1
  unfolding retry_loop
  retry-Succeeded zero none w h = absurd (ground arith)
  retry-Succeeded zero (some e) w h = absurd (ground arith)
  retry-Succeeded (suc n) last w h =
      turn-ok n last w (attempt w).0 refl (λ e. retry-Succeeded n e (attempt w).1) h
