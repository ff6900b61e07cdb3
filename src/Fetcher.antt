-- ===== src/Fetcher.antt =====
-- src/fetcher.rs: HTTP requests, and the retries around them.
pub mod Retry
pub mod Quiet
use reposync.Base.{
  ℕ, zero, suc, ◌+◌, ◌≡◌, Bool, Option, none, some, Text, lit, ◌++◌, ◌&&◌, ◌==◌, ℕ_eq, leb, ltb,
  if◌then◌else◌, unwrap_or,
}
use reposync.Base.Outcome.{Outcome, ok, err, panic}
use reposync.Base.Crates.{Crates, Reader}
use reposync.World.{World, Request, Answer, response, no_response, Exec, pure, throw, abort}

pub record FetchError : Type 0 where
  pub code : ℕ
  pub error : Text

-- `trait Fetcher`
abbrev pub Fetcher : Type 0
Fetcher = Text → Exec FetchError Reader

-- The loop of `RetryFetcher::fetch` over the attempts that are left, with the last error. The
-- waits between the attempts change nothing.
retry_loop : Fetcher → Text → ℕ → Option FetchError → Exec FetchError Reader
retry_loop fetcher url zero none w = (panic, w)
retry_loop fetcher url zero (some e) w = (err e, w)
retry_loop fetcher url (suc n) last w =
    let (r, w') = fetcher url w in
    elim r [
      | ok reader ↦ (ok reader, w')
      | err e ↦ if e.code == 404 then (err e, w') else retry_loop fetcher url n (some e) w'
      | panic ↦ (panic, w')
    ]

-- `RetryFetcher::fetch`
unfoldable pub retry_fetch : Fetcher → ℕ → Fetcher
unfolding retry_loop
retry_fetch fetcher max_retries url = retry_loop fetcher url max_retries none

-- `StatusCode::is_success`
is_success : ℕ → Bool
is_success status = leb 200 status && ltb status 300

-- The answer as `DirectFetcher` reports it.
answered : Answer → Outcome FetchError Reader
unfolding is_success
answered (response status body) =
    if is_success status
    then ok body
    else err (record { code = status; error = lit "request failed: " })
answered (no_response status message) =
    err (record { code = unwrap_or status 503; error = lit "request failed: " ++ message })

module _ ⦃lib : Crates⦄ where
  -- `DirectFetcher::fetch`
  unfoldable pub direct_fetch : Option Text → Fetcher
  unfolding answered
  direct_fetch secret url w =
      let authorization : Option Text = elim secret [
        | none ↦ none
        | some s ↦ some (lit "Basic " ++ lib.base64 s)
      ] in
      (
        answered (w.net w.sent (record { url = url; authorization = authorization })),
        record w { sent = w.sent + 1 },
      )

  -- `create_chain`
  unfoldable pub create_chain : ℕ → Option Text → Fetcher
  unfolding retry_fetch direct_fetch
  create_chain max_retries secret = retry_fetch (direct_fetch secret) max_retries
