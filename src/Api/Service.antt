-- ===== src/Api/Service.antt =====
-- The service of the API, generated/src/server/mod.rs: the paths, `Service::call` and the request
-- parser.
pub mod Calls
use reposync.Base.{
  ℕ, Bool, true, false, not, ◌||◌, ◌==◌, ℕ_eq, text_eq, Option, none, some, [], ◌∷◌, Text, lit,
  is_some, if◌then◌else◌,
}
use reposync.Base.Outcome.{Outcome, ok, err, panic}
use reposync.Server.{
  Status, HealthGetResponse, empty_response_when_everything_is_ok,
  service_unavailable_when_service_has_known_issues,
}
use reposync.Api.{
  Answer, Api, Http, Method, get, post, other_method, Request, Response, RepositoryRepoGetResponse,
  the_status_of_the_repository, repository_not_found, RepositoryRepoSyncPostResponse,
  the_synchronization_has_been_queued_correctly, no_repository_to_sync,
}

-- `[^/?#]*`: the longest start without one of these, and what follows it.
unfoldable pub segment : Text → Text × Text
segment [] = ([], [])
segment (c ∷ s) =
    let (start, rest) = segment s in
    if c == 47 || c == 63 || c == 35 then ([], c ∷ s) else (c ∷ start, rest)

unfoldable pub strip_prefix : Text → Text → Option Text
strip_prefix [] s = some s
strip_prefix (c ∷ p) [] = none
strip_prefix (c ∷ p) (d ∷ s) = if c == d then strip_prefix p s else none

-- The regular expressions of `paths`, with what the group `repo` captures.
abbrev pub is_health : Text → Bool
is_health path = path == lit "/health"

captured : Text → Option Text → Option Text
unfolding segment
captured end none = none
captured end (some s) = let (repo, rest) = segment s in if rest == end then some repo else none

unfoldable pub capture_repo : Text → Text → Option Text
unfolding captured strip_prefix lit
capture_repo end path = captured end (strip_prefix (lit "/repository/") path)

abbrev pub empty_response : ℕ → Response
empty_response status = record { status = status; span = none; content_type = none; body = [] }

abbrev pub with_status : Text → ℕ → Response
with_status span status = record (empty_response status) { span = some span }

-- An error of the implementation.
unfoldable pub internal_error : Text → Response
unfolding lit
internal_error span = record (with_status span 500) { body = lit "An internal error occurred" }

unfoldable pub health_response : Text → HealthGetResponse → Response
health_response span empty_response_when_everything_is_ok = with_status span 204
health_response span service_unavailable_when_service_has_known_issues = with_status span 503

-- What follows a call of the implementation: the header of the span, then the response.
unfoldable pub respond :
    {A : Type 0} → (Text → Bool) → Text → (A → Response) → Answer A → Answer Response
unfolding internal_error
respond is_header span render (ok a) = if is_header span then ok (render a) else panic
respond is_header span render (err e) = if is_header span then ok (internal_error span) else panic
respond is_header span render panic = panic

unfoldable pub answered :
    {A S : Type 0} → (Text → Bool) → Text → (A → Response) → Answer A × S → Answer Response × S
unfolding respond
answered is_header span render (r, s) = (respond is_header span render r, s)

module _ (http : Http) where
  unfoldable pub with_body : Text → ℕ → Status → Response
  unfolding lit
  with_body span status body = record (with_status span status) {
    content_type = some (lit "application/json");
    body = http.to_json body;
  }

  unfoldable pub get_response : Text → RepositoryRepoGetResponse → Response
  unfolding with_body
  get_response span (the_status_of_the_repository body) = with_body span 200 body
  get_response span repository_not_found = with_status span 404

  unfoldable pub sync_response : Text → RepositoryRepoSyncPostResponse → Response
  unfolding with_body
  sync_response span (the_synchronization_has_been_queued_correctly body) = with_body span 201 body
  sync_response span no_repository_to_sync = with_status span 404

  -- The parameter of the path: a 400 if it is not UTF-8.
  with_repo :
      {S : Type 0} → Option Text → (Text → S → Answer Response × S) → S → Answer Response × S
  unfolding lit
  with_repo (some param_repo) operation s = operation param_repo s
  with_repo none operation s = (
    ok (record (empty_response 400) {
      body = lit "Couldn't percent-decode path parameter as UTF-8: ";
    }),
    s,
  )

  module _ {S : Type 0} (api : Api S) where
    call_health_get : Text → S → Answer Response × S
    unfolding answered health_response
    call_health_get span s = answered http.is_header span (health_response span) (api.health_get s)

    call_repo_get : Text → Text → S → Answer Response × S
    unfolding with_repo answered get_response
    call_repo_get span text s =
        with_repo (http.decode text)
          (λ repo u.
            answered http.is_header span (get_response span) (api.repository_repo_get repo u))
          s

    call_repo_sync_post : Text → Text → S → Answer Response × S
    unfolding with_repo answered sync_response
    call_repo_sync_post span text s =
        with_repo (http.decode text)
          (λ repo u.
            answered http.is_header span (sync_response span)
              (api.repository_repo_sync_post repo u))
          s

    -- The arms behind the operations: 405 for a path that is known, else 404.
    not_called : Text → S → Answer Response × S
    unfolding capture_repo lit
    not_called path s =
        if is_health path
          || is_some (capture_repo (lit "/") path)
          || is_some (capture_repo (lit "/sync") path)
        then (ok (empty_response 405), s)
        else (ok (empty_response 404), s)

    -- The arms of GET and of POST, with what the paths match.
    call_get : Bool → Option Text → Request → S → Answer Response × S
    unfolding call_health_get call_repo_get not_called
    call_get true captures request s = call_health_get request.span s
    call_get false (some text) request s = call_repo_get request.span text s
    call_get false none request s = not_called request.uri.path s

    call_post : Option Text → Request → S → Answer Response × S
    unfolding call_repo_sync_post not_called
    call_post (some text) request s = call_repo_sync_post request.span text s
    call_post none request s = not_called request.uri.path s

    -- `Service::call`
    unfoldable pub call : Request → S → Answer Response × S
    unfolding call_get call_post not_called capture_repo lit
    call request s = elim request.method [
      | get ↦
          call_get (is_health request.uri.path) (capture_repo (lit "/") request.uri.path) request s
      | post ↦ call_post (capture_repo (lit "/sync") request.uri.path) request s
      | other_method ↦ not_called request.uri.path s
    ]

-- `ApiRequestParser::parse_operation_id`
unfoldable pub parse_operation_id : Request → Option Text
unfolding capture_repo lit
parse_operation_id request = elim request.method [
  | get ↦
      if is_health request.uri.path
      then some (lit "HealthGet")
      else if is_some (capture_repo (lit "/") request.uri.path)
      then some (lit "RepositoryRepoGet")
      else none
  | post ↦
      if is_some (capture_repo (lit "/sync") request.uri.path)
      then some (lit "RepositoryRepoSyncPost")
      else none
  | other_method ↦ none
]
