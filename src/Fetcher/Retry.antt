-- ===== src/Fetcher/Retry.antt =====
-- The retries of src/fetcher.rs.
use reposync.Base.{
  ℕ, zero, suc, ◌+◌, ◌≤◌, ◌<◌, ◌≡◌, refl, ◌⊎◌, inl, inr, true, false, Option, none, some, Text,
  arith, ◌==◌, ℕ_eq, Bool-cases,
}
use reposync.Base.Outcome.{Outcome, ok, err, panic}
use reposync.Base.Crates.{Crates, Reader}
use reposync.World.{World}
use reposync.Fetcher.{FetchError, Fetcher, retry_loop, retry_fetch, direct_fetch, create_chain}

module _ (fetcher : Fetcher) (url : Text) where
  -- `k` attempts in a row that failed with another error than 404, and the last of their errors.
  pub data Failed (w : World) : ℕ → Option FetchError → World → Type 0 where
    no_attempt : Failed w 0 none w
    attempt :
        {k : ℕ} {last : Option FetchError} {u : World}
        → Failed w k last u
        → (e : FetchError) → (fetcher url u).0 ≡ err e
        → (e.code == 404) ≡ false
        → Failed w (suc k) (some e) (fetcher url u).1

  -- An outcome that ends the loop at once: a response, a panic, or the status 404.
  abbrev pub IsFinal : Outcome FetchError Reader → Type 0
  IsFinal (ok reader) = Unit
  IsFinal (err e) = (e.code == 404) ≡ true
  IsFinal panic = Unit

  abbrev pub exhausted : Option FetchError → Outcome FetchError Reader
  exhausted none = panic
  exhausted (some e) = err e

  abbrev Ends : World → ℕ → Outcome FetchError Reader × World → Type 0
  Ends w n r =
      (k : ℕ) × (last : Option FetchError) × (u : World) × Failed w k last u
      × (((k < n) × IsFinal (fetcher url u).0 × (r ≡ fetcher url u))
          ⊎ ((k ≡ n) × (r ≡ (exhausted last, u))))

  -- A loop that stops at this attempt.
  stops :
      (w : World) (k n : ℕ) (last : Option FetchError) (u : World) (r : Outcome FetchError Reader)
      → Failed w k last u
      → (fetcher url u).0 ≡ r
      → IsFinal r
      → Ends w (k + suc n) (retry_loop fetcher url (suc n) last u)
  unfolding retry_loop
  stops w k n last u (ok x) f e i = (k, last, u, f, inl (omega arith, rw e tt, ground arith))
  stops w k n last u (err x) f e i = (k, last, u, f, inl (omega arith, rw e i, ground arith))
  stops w k n last u panic f e i = (k, last, u, f, inl (omega arith, rw e tt, ground arith))

  -- One turn of the loop, with the turns behind it as an argument.
  turns :
      (w : World) (k n : ℕ) (last : Option FetchError) (u : World) (r : Outcome FetchError Reader)
      → Failed w k last u
      → (fetcher url u).0 ≡ r
      → ((x : FetchError)
          → Failed w (suc k) (some x) (fetcher url u).1
          → Ends w (suc k + n) (retry_loop fetcher url n (some x) (fetcher url u).1))
      → Ends w (k + suc n) (retry_loop fetcher url (suc n) last u)
  unfolding retry_loop
  turns w k n last u (ok x) f e again = stops w k n last u (ok x) f e tt
  turns w k n last u panic f e again = stops w k n last u panic f e tt
  turns w k n last u (err x) f e again = elim (Bool-cases (x.code == 404)) [
    | inl c ↦ stops w k n last u (err x) f e c
    | inr c ↦
        let same : k + suc n ≡ suc k + n = omega arith in
        let next : retry_loop fetcher url (suc n) last u
            ≡ retry_loop fetcher url n (some x) (fetcher url u).1 =
          ground arith in
        rw (same, next) (again x (attempt f x e c))
  ]

  retry_loop-Ends :
      (w : World) (k n : ℕ) (last : Option FetchError) (u : World)
      → Failed w k last u
      → Ends w (k + n) (retry_loop fetcher url n last u)
  unfolding retry_loop
  retry_loop-Ends w k zero none u f = (k, none, u, f, inr (omega arith, refl))
  retry_loop-Ends w k zero (some e) u f = (k, some e, u, f, inr (omega arith, refl))
  retry_loop-Ends w k (suc n) last u f =
      turns w k n last u (fetcher url u).0 f refl
        (λ x f'. retry_loop-Ends w (suc k) n (some x) (fetcher url u).1 f')

  -- The fetcher is asked again as long as it fails with another error than 404. The result is that
  -- of the first attempt that ends otherwise, or after all attempts the last error; with no attempt
  -- at all, as by `max_retries: 0`, it is a panic.
  pub retry_fetch-Ends :
      (n : ℕ) (w : World)
      → (k : ℕ) × (last : Option FetchError) × (u : World) × Failed w k last u
        × (((k < n) × IsFinal (fetcher url u).0 × (retry_fetch fetcher n url w ≡ fetcher url u))
            ⊎ ((k ≡ n) × (retry_fetch fetcher n url w ≡ (exhausted last, u))))
  unfolding retry_fetch
  retry_fetch-Ends n w =
      let z : 0 + n ≡ n = omega arith in rw z at (retry_loop-Ends w 0 n none w no_attempt)

  -- A fetcher that sends one request for each call.
  module _ (one : (u : World) → (fetcher url u).1.sent ≡ u.sent + 1) where
    abbrev IsWithin : ℕ → World → World → Type 0
    IsWithin n w w' = (w.sent ≤ w'.sent) × (w'.sent ≤ w.sent + n)

    sent_turn :
        (n : ℕ) (last : Option FetchError) (w : World) (r : Outcome FetchError Reader)
        → (fetcher url w).0 ≡ r
        → ((x : FetchError)
            → IsWithin n (fetcher url w).1 (retry_loop fetcher url n (some x) (fetcher url w).1).1)
        → IsWithin (suc n) w (retry_loop fetcher url (suc n) last w).1
    unfolding retry_loop
    sent_turn n last w (ok x) e rest = ground (arith, one w)
    sent_turn n last w panic e rest = ground (arith, one w)
    sent_turn n last w (err x) e rest = ground (arith, one w, rest x)

    retry_loop-sent :
        (n : ℕ) (last : Option FetchError) (w : World)
        → IsWithin n w (retry_loop fetcher url n last w).1
    unfolding retry_loop
    retry_loop-sent zero none w = omega arith
    retry_loop-sent zero (some e) w = omega arith
    retry_loop-sent (suc n) last w =
        sent_turn n last w (fetcher url w).0 refl
          (λ x. retry_loop-sent n (some x) (fetcher url w).1)

module _ ⦃lib : Crates⦄ where
  direct_fetch-sent :
      (secret : Option Text) (url : Text) (w : World)
      → (direct_fetch secret url w).1.sent ≡ w.sent + 1
  unfolding direct_fetch
  direct_fetch-sent secret url w = refl

  -- A fetch of the chain sends at most `max_retries` requests.
  pub create_chain-sent :
      (max_retries : ℕ) (secret : Option Text) (url : Text) (w : World)
      → (w.sent ≤ (create_chain max_retries secret url w).1.sent)
        × ((create_chain max_retries secret url w).1.sent ≤ w.sent + max_retries)
  unfolding create_chain retry_fetch
  create_chain-sent max_retries secret url w =
      retry_loop-sent (direct_fetch secret) url (direct_fetch-sent secret url) max_retries none w
