-- ===== src/Api.antt =====
-- The operations of the API, of src/lib.rs of the crate generated/. `Api` is the trait, over the
-- state that an implementation of it keeps.
pub mod Service
pub mod Client
pub mod Laws
pub mod Models
pub mod Transparent
pub mod Implementation
use reposync.Base.{ℕ, Bool, Option, Text}
use reposync.Base.Outcome.{Outcome}
use reposync.Server.{Status, HealthGetResponse}

pub data RepositoryRepoGetResponse : Type 0 where
  the_status_of_the_repository : Status → RepositoryRepoGetResponse
  repository_not_found : RepositoryRepoGetResponse

-- Its `RepositoryNotFound` has a name of its own.
pub data RepositoryRepoSyncPostResponse : Type 0 where
  the_synchronization_has_been_queued_correctly : Status → RepositoryRepoSyncPostResponse
  no_repository_to_sync : RepositoryRepoSyncPostResponse

-- An `ApiError` is its text.
abbrev pub Answer : Type 0 → Type 0
Answer A = Outcome Text A

pub record Api (S : Type 0) : Type 0 where
  pub health_get : S → Answer HealthGetResponse × S
  pub repository_repo_get : Text → S → Answer RepositoryRepoGetResponse × S
  pub repository_repo_sync_post : Text → S → Answer RepositoryRepoSyncPostResponse × S

pub record Uri : Type 0 where
  pub scheme : Option Text
  pub host : Option Text
  pub port : Option ℕ
  pub path : Text

pub data Method : Type 0 where
  get : Method
  post : Method
  other_method : Method

-- A request with its span, the header that the context carries.
pub record Request : Type 0 where
  pub method : Method
  pub uri : Uri
  pub span : Text

pub record Response : Type 0 where
  pub status : ℕ
  pub span : Option Text
  pub content_type : Option Text
  pub body : Text

-- The third-party code of the API: `Uri::from_str`, whether `HeaderValue::from_str` takes a text,
-- `utf8_percent_encode` with its set, `CONTROLS`, `percent_decode` followed by `decode_utf8`, and
-- serde_json for `Status`.
pub record Http : Type 0 where
  pub parse_uri : Text → Option Uri
  pub is_header : Text → Bool
  pub controls : ℕ → Bool
  pub encode : (ℕ → Bool) → Text → Text
  pub decode : Text → Option Text
  pub to_json : Status → Text
  pub from_json : Text → Option Status
