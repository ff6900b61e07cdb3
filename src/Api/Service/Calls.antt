-- ===== src/Api/Service/Calls.antt =====
-- How `Service::call` of generated/src/server/mod.rs finds the operation of a request.
use reposync.Base.{
  false, ◌==◌, ==_self, ℕ_eq, text_eq, ◌≡◌, refl, ◌∙◌, ap, none, some, [], ◌∷◌, ◌++◌, Text, lit,
  arith, if◌then◌else◌, text-discrete, ℕ-discrete,
}
use reposync.Api.{Api, Http, Uri, get, post, Request}
use reposync.Api.Service.{
  segment, strip_prefix, captured, capture_repo, call, answered, health_response, get_response,
  sync_response, with_repo, call_get, call_post, call_health_get, call_repo_get,
  call_repo_sync_post,
}
use reposync.Api.Laws.{AreSegmentBytes}

segment-append : (t rest : Text) → AreSegmentBytes t → segment (t ++ 47 ∷ rest) ≡ (t, 47 ∷ rest)
unfolding segment ℕ-discrete
segment-append [] rest h = refl
segment-append (c ∷ t) rest (h, hs) = ground (arith, h, segment-append t rest hs)

captured-append :
    (t rest : Text) → AreSegmentBytes t → captured (47 ∷ rest) (some (t ++ 47 ∷ rest)) ≡ some t
unfolding captured
captured-append t rest h =
    ap (λ (z : Text × Text). if z.1 == 47 ∷ rest then some z.0 else none) (segment-append t rest h)
    ∙ rw (==_self (47 ∷ rest)) refl

capture_repo-append :
    (t rest path : Text)
    → AreSegmentBytes t
    → path ≡ lit "/repository/" ++ t ++ 47 ∷ rest
    → capture_repo (47 ∷ rest) path ≡ some t
unfolding capture_repo strip_prefix lit ℕ-discrete
capture_repo-append t rest path h e = ap (capture_repo (47 ∷ rest)) e ∙ captured-append t rest h

not-health : (t path : Text) → path ≡ lit "/repository/" ++ t → (path == lit "/health") ≡ false
unfolding lit text-discrete ℕ-discrete
not-health t path e = ap (λ p. p == lit "/health") e

module _ (http : Http) {S : Type 0} (api : Api S) (span : Text) where
  pub call-health :
      (u : Uri) (s : S)
      → u.path ≡ lit "/health"
      → call http api (record { method = get; uri = u; span = span }) s
        ≡ answered http.is_header span (health_response span) (api.health_get s)
  unfolding call call_get call_health_get lit text-discrete ℕ-discrete
  call-health u s e =
      ap
        (λ p.
          call_get http api (p == lit "/health") (capture_repo (lit "/") p)
            (record { method = get; uri = record u { path = p }; span = span }) s)
        e

  pub call-get :
      (u : Uri) (t repo : Text) (s : S)
      → u.path ≡ lit "/repository/" ++ t ++ lit "/"
      → AreSegmentBytes t
      → http.decode t ≡ some repo
      → call http api (record { method = get; uri = u; span = span }) s
        ≡ answered http.is_header span (get_response http span) (api.repository_repo_get repo s)
  unfolding call call_get call_repo_get with_repo lit
  call-get u t repo s e h d =
      let request : Request = record { method = get; uri = u; span = span } in
      let other = not-health (t ++ lit "/") u.path e in
      let found = capture_repo-append t [] u.path h e in
      (λ i. call_get http api (other i) (found i) request s)
      ∙ ap
          (λ z.
            with_repo http z
              (λ name v.
                answered http.is_header span (get_response http span)
                  (api.repository_repo_get name v))
              s)
          d

  pub call-post :
      (u : Uri) (t repo : Text) (s : S)
      → u.path ≡ lit "/repository/" ++ t ++ lit "/sync"
      → AreSegmentBytes t
      → http.decode t ≡ some repo
      → call http api (record { method = post; uri = u; span = span }) s
        ≡ answered http.is_header span
            (sync_response http span)
            (api.repository_repo_sync_post repo s)
  unfolding call call_post call_repo_sync_post with_repo lit
  call-post u t repo s e h d =
      let request : Request = record { method = post; uri = u; span = span } in
      let found = capture_repo-append t (115 ∷ 121 ∷ 110 ∷ 99 ∷ []) u.path h e in
      (λ i. call_post http api (found i) request s)
      ∙ ap
          (λ z.
            with_repo http z
              (λ name v.
                answered http.is_header span (sync_response http span)
                  (api.repository_repo_sync_post name v))
              s)
          d
