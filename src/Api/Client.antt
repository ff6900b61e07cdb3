-- ===== src/Api/Client.antt =====
-- The client of the API, generated/src/client/mod.rs: the base path, the three calls, and how their
-- responses are read.
pub mod Calls
use mathlib.Core.List.{reverse}
use reposync.Base.{
  ℕ, Bool, true, false, not, ◌||◌, ◌==◌, ◌++◌, ℕ_eq, text_eq, Option, none, some, [], ◌∷◌, Text,
  lit, if◌then◌else◌,
}
use reposync.Base.Outcome.{Outcome, ok, err, panic, ◌>>=◌}
use reposync.Base.Parse.{is_utf8}
use reposync.Base.Parse.Decimal.{decimal}
use reposync.Server.{
  Status, HealthGetResponse, empty_response_when_everything_is_ok,
  service_unavailable_when_service_has_known_issues,
}
use reposync.Api.{
  Answer, Api, Http, Uri, Method, get, post, Request, Response, RepositoryRepoGetResponse,
  the_status_of_the_repository, repository_not_found, RepositoryRepoSyncPostResponse,
  the_synchronization_has_been_queued_correctly, no_repository_to_sync,
}

pub data ClientInitError : Type 0 where
  invalid_scheme : ClientInitError
  invalid_uri : ClientInitError
  missing_host : ClientInitError
  ssl_error : ClientInitError

-- `trim_end_matches('/')`, of the text from its end.
drop_slashes : Text → Text
drop_slashes [] = []
drop_slashes (c ∷ s) = let rest = drop_slashes s in if c == 47 then rest else c ∷ s

trim_slashes : Text → Text
unfolding drop_slashes
trim_slashes s = reverse (drop_slashes (reverse s))

is_scheme : Option Text → Text → Bool
is_scheme none scheme = true
is_scheme (some correct_scheme) scheme = scheme == correct_scheme

port_text : Option ℕ → Text
port_text none = []
port_text (some port) = 58 ∷ decimal port

with_host : Text → Option Text → Uri → Outcome ClientInitError Text
unfolding port_text trim_slashes lit
with_host scheme none uri = err missing_host
with_host scheme (some host) uri =
    ok (scheme ++ lit "://" ++ host ++ port_text uri.port ++ trim_slashes uri.path)

with_scheme : Option Text → Option Text → Uri → Outcome ClientInitError Text
unfolding is_scheme with_host
with_scheme correct_scheme none uri = err invalid_scheme
with_scheme correct_scheme (some scheme) uri =
    if is_scheme correct_scheme scheme then with_host scheme uri.host uri else err invalid_scheme

-- An error of a response with a status that the operation does not have.
unfoldable pub unexpected : Text
unfolding lit
unexpected = lit "Unexpected response code "

module _ (http : Http) where
  -- `into_base_path`
  unfoldable pub into_base_path : Text → Option Text → Outcome ClientInitError Text
  unfolding with_scheme
  into_base_path input correct_scheme = elim (http.parse_uri input) [
    | none ↦ err invalid_uri
    | some uri ↦ with_scheme correct_scheme uri.scheme uri
  ]

  -- `ID_ENCODE_SET`
  abbrev pub id_encode_set : ℕ → Bool
  id_encode_set c =
      http.controls c || c == 32 || c == 34 || c == 60 || c == 62 || c == 96 || c == 124

  unfoldable pub status_body : {A : Type 0} → (Status → A) → Text → Answer A
  unfolding lit
  status_body done body =
      if is_utf8 body
      then elim (http.from_json body) [
        | some status ↦ ok (done status)
        | none ↦ err (lit "Response body did not match the schema")
      ]
      else err (lit "Response was not valid UTF8: ")

  unfoldable pub read_health : Response → Answer HealthGetResponse
  unfolding unexpected
  read_health response =
      if response.status == 204
      then ok empty_response_when_everything_is_ok
      else if response.status == 503
      then ok service_unavailable_when_service_has_known_issues
      else err unexpected

  unfoldable pub read_get : Response → Answer RepositoryRepoGetResponse
  unfolding status_body unexpected
  read_get response =
      if response.status == 200
      then status_body the_status_of_the_repository response.body
      else if response.status == 404
      then ok repository_not_found
      else err unexpected

  unfoldable pub read_sync : Response → Answer RepositoryRepoSyncPostResponse
  unfolding status_body unexpected
  read_sync response =
      if response.status == 201
      then status_body the_synchronization_has_been_queued_correctly response.body
      else if response.status == 404
      then ok no_repository_to_sync
      else err unexpected

  -- `client_service` sends a request; `span` is the header of the context.
  module _ {S : Type 0} (client_service : Request → S → Answer Response × S)
      (base_path span : Text) where
    unfoldable pub received :
        {A : Type 0} → (Response → Answer A) → Answer Response × S → Answer A × S
    unfolding lit
    received read (ok response, s) = (read response, s)
    received read (err e, s) = (err (lit "No response received: " ++ e), s)
    received read (panic, s) = (panic, s)

    -- What the three calls share: the request is built, sent, and its response read.
    send : {A : Type 0} → Method → Text → (Response → Answer A) → S → Answer A × S
    unfolding received lit
    send method uri read s = elim (http.parse_uri uri) [
      | none ↦ (err (lit "Unable to build URI: "), s)
      | some u ↦
          if http.is_header span
          then received read (client_service (record { method = method; uri = u; span = span }) s)
          else (err (lit "Unable to create X-Span ID header value: "), s)
    ]

    client_health_get : S → Answer HealthGetResponse × S
    unfolding send read_health lit
    client_health_get s = send get (base_path ++ lit "/health") read_health s

    client_repo_get : Text → S → Answer RepositoryRepoGetResponse × S
    unfolding send read_get lit
    client_repo_get param_repo s =
        send get
          (base_path ++ lit "/repository/" ++ http.encode id_encode_set param_repo ++ lit "/")
          read_get s

    client_repo_sync_post : Text → S → Answer RepositoryRepoSyncPostResponse × S
    unfolding send read_sync lit
    client_repo_sync_post param_repo s =
        send post
          (base_path ++ lit "/repository/" ++ http.encode id_encode_set param_repo ++ lit "/sync")
          read_sync s

    -- `impl Api for Client`
    unfoldable pub client : Api S
    unfolding client_health_get client_repo_get client_repo_sync_post
    client = record {
      health_get = client_health_get;
      repository_repo_get = client_repo_get;
      repository_repo_sync_post = client_repo_sync_post;
    }
