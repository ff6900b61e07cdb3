-- ===== src/Fetcher/Quiet.antt =====
-- The fetchers of src/fetcher.rs read the network only.
use reposync.Base.{
  ℕ, zero, suc, ◌≡◌, refl, Option, none, some, Text, inl, inr, ◌==◌, ℕ_eq, Bool-cases,
}
use reposync.Base.Outcome.{Outcome, ok, err, panic}
use reposync.Base.Crates.{Crates, Reader}
use reposync.World.{World}
use reposync.World.Preorder.{IsPreorder, Keeps}
use reposync.World.Files.Frame.{SameFiles, SameFiles-preorder}
use reposync.Fetcher.{FetchError, Fetcher, retry_loop, retry_fetch, direct_fetch, create_chain}

module _ {R : World → World → Type 0} (p : IsPreorder R) (fetcher : Fetcher) (url : Text)
    (h : Keeps R (fetcher url)) where
  turn-rel :
      (n : ℕ) (last : Option FetchError) (w : World) (r : Outcome FetchError Reader)
      → (fetcher url w).0 ≡ r
      → ((e : FetchError)
          → R (fetcher url w).1 (retry_loop fetcher url n (some e) (fetcher url w).1).1)
      → R w (retry_loop fetcher url (suc n) last w).1
  unfolding retry_loop
  turn-rel n last w (ok x) e rest = rw (retry_loop, e) (h.at w)
  turn-rel n last w panic e rest = rw (retry_loop, e) (h.at w)
  turn-rel n last w (err x) e rest = elim (Bool-cases (x.code == 404)) [
    | inl c ↦ rw (retry_loop, e, c) (h.at w)
    | inr c ↦ rw (retry_loop, e, c) (p.rel_trans w _ _ (h.at w) (rest x))
  ]

  retry-rel :
      (n : ℕ) (last : Option FetchError) (w : World) → R w (retry_loop fetcher url n last w).1
  unfolding retry_loop
  retry-rel zero none w = p.rel_refl w
  retry-rel zero (some e) w = p.rel_refl w
  retry-rel (suc n) last w =
      turn-rel n last w (fetcher url w).0 refl (λ e. retry-rel n (some e) (fetcher url w).1)

module _ ⦃lib : Crates⦄ where
  direct_fetch-SameFiles :
      (secret : Option Text) (url : Text) → Keeps SameFiles (direct_fetch secret url)
  unfolding direct_fetch
  direct_fetch-SameFiles secret url = record {
    at = λ w. record { contents = λ q. refl; bucket = refl };
  }

  -- A fetch writes no file and no object.
  pub create_chain-SameFiles :
      (max_retries : ℕ) (secret : Option Text) (url : Text)
      → Keeps SameFiles (create_chain max_retries secret url)
  unfolding create_chain retry_fetch
  create_chain-SameFiles max_retries secret url = record {
    at =
        retry-rel SameFiles-preorder (direct_fetch secret) url (direct_fetch-SameFiles secret url)
          max_retries none;
  }
