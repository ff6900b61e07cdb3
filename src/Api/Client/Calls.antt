-- ===== src/Api/Client/Calls.antt =====
-- What a call of the client of generated/src/client/mod.rs sends.
use mathlib.Core.List.{append_assoc}
use reposync.Base.{
  true, ℕ_eq, text_eq, ◌≡◌, refl, ◌∙◌, ap, some, [], ◌∷◌, ◌++◌, Text, lit, All-map, All-append,
  arith, ℕ-discrete,
}
use reposync.Api.{Answer, Http, Uri, Method, get, post, Request, Response}
use reposync.Api.Client.{
  id_encode_set, read_health, read_get, read_sync, received, send, client, client_health_get,
  client_repo_get, client_repo_sync_post,
}
use reposync.Api.Laws.{AreSegmentBytes, ArePathBytes, IsPlain, IsHttp, IsRoot}

module _ (http : Http) {S : Type 0} (service : Request → S → Answer Response × S)
    (base_path span : Text) (header : http.is_header span ≡ true)
    (root : IsRoot http base_path) where
  sent :
      {A : Type 0} (method : Method) (uri : Text) (u : Uri) (read : Response → Answer A) (s : S)
      → http.parse_uri uri ≡ some u
      → send http service base_path span method uri read s
        ≡ received http service base_path span read
            (service (record { method = method; uri = u; span = span }) s)
  unfolding send
  sent method uri u read s e = rw (send, e, header) refl

  pub health_get-sent :
      (s : S)
      → (u : Uri) × (u.path ≡ lit "/health")
        × ((client http service base_path span).health_get s
            ≡ received http service base_path span
                (read_health http)
                (service (record { method = get; uri = u; span = span }) s))
  unfolding client client_health_get lit ℕ-discrete
  health_get-sent s =
      let (u, parsed, path) =
        root (104 ∷ 101 ∷ 97 ∷ 108 ∷ 116 ∷ 104 ∷ [])
          (refl, (refl, (refl, (refl, (refl, (refl, tt)))))) in
      (u, path, sent get (base_path ++ lit "/health") u (read_health http) s parsed)

  path-segment : (t : Text) → AreSegmentBytes t → ArePathBytes t
  path-segment t h = All-map _ _ (λ c k. ground (arith, k)) t h

  module _ (laws : IsHttp http) (repo : Text) (plain : IsPlain repo) where
    abbrev pub encoded_repo : Text
    encoded_repo = http.encode (id_encode_set http) repo

    -- The URI of a path with the name of the repository.
    repo-uri :
        (end : Text)
        → ArePathBytes end
        → (u : Uri) × (http.parse_uri (base_path ++ lit "/repository/" ++ encoded_repo ++ end)
            ≡ some u)
          × (u.path ≡ lit "/repository/" ++ encoded_repo ++ end)
    unfolding lit ℕ-discrete
    repo-uri end h =
        let bytes : ArePathBytes (encoded_repo ++ end) =
          All-append _ encoded_repo end (path-segment encoded_repo (laws.encoded repo plain)) h in
        let (u, parsed, path) =
          root
            ((114 ∷ 101 ∷ 112 ∷ 111 ∷ 115 ∷ 105 ∷ 116 ∷ 111 ∷ 114 ∷ 121 ∷ 47 ∷ [])
              ++ encoded_repo
              ++ end)
            (
              refl,
              (refl, (refl, (refl, (refl, (refl, (refl, (refl, (refl, (refl, (refl, bytes)))))))))),
            ) in
        (
          u,
          ap http.parse_uri (
                append_assoc (base_path ++ lit "/repository/") encoded_repo end
                ∙ append_assoc base_path (lit "/repository/") (encoded_repo ++ end))
              ∙ parsed,
          path,
        )

    pub repo_get-sent :
        (s : S)
        → (u : Uri) × (u.path ≡ lit "/repository/" ++ encoded_repo ++ lit "/")
          × ((client http service base_path span).repository_repo_get repo s
              ≡ received http service base_path span
                  (read_get http)
                  (service (record { method = get; uri = u; span = span }) s))
    unfolding client client_repo_get lit ℕ-discrete
    repo_get-sent s =
        let (u, parsed, path) = repo-uri (47 ∷ []) (refl, tt) in
        (u, path, sent get _ u (read_get http) s parsed)

    pub repo_sync_post-sent :
        (s : S)
        → (u : Uri) × (u.path ≡ lit "/repository/" ++ encoded_repo ++ lit "/sync")
          × ((client http service base_path span).repository_repo_sync_post repo s
              ≡ received http service base_path span
                  (read_sync http)
                  (service (record { method = post; uri = u; span = span }) s))
    unfolding client client_repo_sync_post lit ℕ-discrete
    repo_sync_post-sent s =
        let (u, parsed, path) =
          repo-uri (47 ∷ 115 ∷ 121 ∷ 110 ∷ 99 ∷ []) (refl, (refl, (refl, (refl, (refl, tt))))) in
        (u, path, sent post _ u (read_sync http) s parsed)
