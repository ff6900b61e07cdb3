-- ===== src/Api/Transparent.antt =====
-- The client and the service of the API together.
use reposync.Base.{true, ℕ_eq, text_eq, ◌≡◌, refl, ◌∙◌, ap, Text, ℕ-discrete}
use reposync.Base.Outcome.{ok, err, panic}
use reposync.Base.Parse.{is_utf8}
use reposync.Server.{
  HealthGetResponse, empty_response_when_everything_is_ok,
  service_unavailable_when_service_has_known_issues,
}
use reposync.Api.{
  Answer, Api, Http, Request, Response, RepositoryRepoGetResponse, the_status_of_the_repository,
  repository_not_found, RepositoryRepoSyncPostResponse,
  the_synchronization_has_been_queued_correctly, no_repository_to_sync,
}
use reposync.Api.Service.{
  call, answered, respond, internal_error, health_response, get_response, sync_response, with_body,
}
use reposync.Api.Service.Calls.{call-health, call-get, call-post}
use reposync.Api.Client.{
  unexpected, status_body, read_health, read_get, read_sync, received, client,
}
use reposync.Api.Client.Calls.{health_get-sent, repo_get-sent, repo_sync_post-sent}
use reposync.Api.Laws.{IsPlain, IsHttp, IsRoot}

-- What a client sees of an answer: the text of an error is lost.
pub seen : {A S : Type 0} → Answer A × S → Answer A × S
seen (ok a, s) = (ok a, s)
seen (err e, s) = (err unexpected, s)
seen (panic, s) = (panic, s)

pub seen-state : {A S : Type 0} (x : Answer A × S) → (seen x).1 ≡ x.1
unfolding seen
seen-state (ok a, s) = refl
seen-state (err e, s) = refl
seen-state (panic, s) = refl

module _ (http : Http) {S : Type 0} where
  seen-received :
      {A : Type 0} (service : Request → S → Answer Response × S) (base_path span : Text)
      (read : Response → Answer A) (render : A → Response) (r : Answer A × S)
      → http.is_header span ≡ true
      → ((a : A) → read (render a) ≡ ok a)
      → read (internal_error span) ≡ err unexpected
      → received http service base_path span read (answered http.is_header span render r) ≡ seen r
  unfolding received answered respond seen
  seen-received service base_path span read render (ok a, s) h ok_read err_read =
      rw h (ap (λ z. (z, s)) (ok_read a))
  seen-received service base_path span read render (err e, s) h ok_read err_read =
      rw h (ap (λ z. (z, s)) err_read)
  seen-received service base_path span read render (panic, s) h ok_read err_read = refl

  module _ (laws : IsHttp http) (api : Api S) (span : Text) where
    health-read : (a : HealthGetResponse) → read_health http (health_response span a) ≡ ok a
    unfolding read_health health_response ℕ-discrete
    health-read empty_response_when_everything_is_ok = refl
    health-read service_unavailable_when_service_has_known_issues = refl

    get-read : (a : RepositoryRepoGetResponse) → read_get http (get_response http span a) ≡ ok a
    unfolding read_get get_response with_body status_body ℕ-discrete
    get-read (the_status_of_the_repository body) =
        rw (laws.json_text body, laws.json_read body) refl
    get-read repository_not_found = refl

    sync-read :
        (a : RepositoryRepoSyncPostResponse) → read_sync http (sync_response http span a) ≡ ok a
    unfolding read_sync sync_response with_body status_body ℕ-discrete
    sync-read (the_synchronization_has_been_queued_correctly body) =
        rw (laws.json_text body, laws.json_read body) refl
    sync-read no_repository_to_sync = refl

    module _ (base_path repo : Text) (root : IsRoot http base_path)
        (header : http.is_header span ≡ true) where
      -- The client of the service is the implementation itself: each operation has the same
      -- response and leaves the same state, whether it goes through the client, the path, the
      -- service and the response or not; only the text of an error is lost. The base path has no
      -- path of its own, and the name of the repository is UTF-8 without `/`, `?`, `#` and `%`.
      pub client-call :
          (s : S)
          → IsPlain repo
          → is_utf8 repo ≡ true
          → ((client http (call http api) base_path span).health_get s ≡ seen (api.health_get s))
            × ((client http (call http api) base_path span).repository_repo_get repo s
                ≡ seen (api.repository_repo_get repo s))
            × ((client http (call http api) base_path span).repository_repo_sync_post repo s
                ≡ seen (api.repository_repo_sync_post repo s))
      unfolding read_health read_get read_sync internal_error unexpected ℕ-discrete
      client-call s plain valid =
          let service = call http api in
          let decoded = laws.decoded repo plain valid in
          let bytes = laws.encoded repo plain in
          let (u₁, path₁, sent₁) = health_get-sent http service base_path span header root s in
          let (u₂, path₂, sent₂) =
            repo_get-sent http service base_path span header root laws repo plain s in
          let (u₃, path₃, sent₃) =
            repo_sync_post-sent http service base_path span header root laws repo plain s in
          (
            sent₁
                ∙ ap (received http service base_path span (read_health http))
                    (call-health http api span u₁ s path₁)
                ∙ seen-received service base_path span (read_health http) (health_response span)
                    (api.health_get s) header health-read refl,
            sent₂
                ∙ ap (received http service base_path span (read_get http))
                    (call-get http api span u₂ _ repo s path₂ bytes decoded)
                ∙ seen-received service base_path span (read_get http) (get_response http span)
                    (api.repository_repo_get repo s) header get-read refl,
            sent₃
                ∙ ap (received http service base_path span (read_sync http))
                    (call-post http api span u₃ _ repo s path₃ bytes decoded)
                ∙ seen-received service base_path span (read_sync http) (sync_response http span)
                    (api.repository_repo_sync_post repo s) header sync-read refl,
          )
