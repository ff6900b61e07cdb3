-- ===== src/Tests/Wire.antt =====
-- The client over the service of the API, at a wire of tallies.
use Prim.Native.Nat.{min}
use reposync.Base.Dict.{get}
use reposync.Sync.Scheduler.{SharedMap, minutes}
use reposync.Api.Implementation.{server_api, client-queue_sync}
use reposync.Tests.Data.{sample_crates, world, config, repo_name}
use reposync.Tests.Schedule.{status, schedule, shared, scheduled}
use reposync.Base.{
  false, ◌+◌, text_eq, ℕ, suc, true, false, ◌==◌, ℕ_eq, ◌≡◌, refl, ap, Option, none, some, [], ◌∷◌,
  Text, arith, if◌then◌else◌, ℕ-discrete,
}
use reposync.Base.Outcome.{ok}
use reposync.Base.Parse.{is_utf8}
use reposync.Base.Parse.Signed.{pos, negsuc}
use reposync.Server.{Status, empty_response_when_everything_is_ok}
use reposync.Api.{Api, Http, Uri, the_status_of_the_repository, no_repository_to_sync}
use reposync.Api.Models.{to_string, from_str}
use reposync.Api.Models.RoundTrip.{IsQuery, from_str-to_string}
use reposync.Api.Service.{call}
use reposync.Api.Client.{client}
use reposync.Api.Laws.{IsPlain, IsHttp, IsRoot}
use reposync.Api.Transparent.{seen, client-call}
use reposync.Tests.Tally.{
  Read, tallies, tallies-All, read_tallies, read-tallies, write_status, read_status, read-write,
  write_status-is_utf8,
}

read_name : Read → Option Text
read_name none = none
read_name (some (t, rest)) = some t

-- The one host is `h`, with no path in front.
parse : Text → Option Uri
parse [] = none
parse (h ∷ p) = some (record { scheme = none; host = some (h ∷ []); port = none; path = p })

abbrev wire : Http
wire = record {
  parse_uri = parse;
  is_header = λ t. true;
  controls = λ c. false;
  encode = λ set t. tallies t [];
  decode = λ s. read_name (read_tallies s);
  to_json = write_status;
  from_json = read_status;
}

wire-IsHttp : IsHttp wire
unfolding read_name ℕ-discrete
wire-IsHttp = record {
  encoded = λ t plain. tallies-All _ refl refl refl t [] tt;
  decoded = λ t plain valid. ap read_name (read-tallies t []);
  json_text = write_status-is_utf8;
  json_read = read-write;
}

root : IsRoot wire (104 ∷ [])
unfolding parse
root p h =
    (record { scheme = none; host = some (104 ∷ []); port = none; path = 47 ∷ p }, refl, refl)

abbrev sample_status : Status
sample_status = record {
  name = 114 ∷ [];
  status = [];
  next_sync = pos 3;
  last_sync = negsuc 2;
  last_result = [];
  size = pos 5;
  packages = pos 1;
}

-- An implementation that counts its calls.
abbrev counter : Api ℕ
counter = record {
  health_get = λ n. (ok empty_response_when_everything_is_ok, suc n);
  repository_repo_get = λ repo n. (ok (the_status_of_the_repository sample_status), suc n);
  repository_repo_sync_post = λ repo n. (ok no_repository_to_sync, suc n);
}

abbrev remote : Api ℕ
remote = client wire (call wire counter) (104 ∷ []) []

plain : IsPlain (114 ∷ [])
unfolding ℕ-discrete
plain = (refl, tt)

valid : is_utf8 (114 ∷ []) ≡ true
unfolding is_utf8
valid = refl

client-call_example :
    (remote.health_get 0 ≡ seen (counter.health_get 0))
    × (remote.repository_repo_get (114 ∷ []) 0 ≡ seen (counter.repository_repo_get (114 ∷ []) 0))
    × (remote.repository_repo_sync_post (114 ∷ []) 0
        ≡ seen (counter.repository_repo_sync_post (114 ∷ []) 0))
client-call_example =
    client-call wire wire-IsHttp counter [] (104 ∷ []) (114 ∷ []) root refl 0 plain valid

-- A client asks for the repository of the schedule.
abbrev asked : SharedMap
asked =
    ((client wire (call wire (server_api config 5 [] world)) (104 ∷ [])
        []).repository_repo_sync_post
      repo_name shared).1

client-queue_sync_example :
    (m' : SharedMap) × (asked ≡ m')
    × (m'.is_poisoned ≡ false)
    × ((j : Text)
        → get m'.statuses j ≡ (
            if repo_name == j
            then some (record status {
              next_sync =
                  min (status.last_sync + minutes config.general.min_sync_delay) status.next_sync;
            })
            else get schedule j))
client-queue_sync_example =
    client-queue_sync config 5 [] world wire wire-IsHttp (104 ∷ []) [] repo_name root refl plain
      valid shared status refl scheduled (omega arith)

sample-IsQuery : IsQuery sample_status
unfolding ℕ-discrete
sample-IsQuery = record {
  name = (refl, tt);
  status = tt;
  last_result = tt;
  next_sync = omega arith;
  last_sync = omega arith;
  size = omega arith;
  packages = omega arith;
}

from_str-to_string_example : from_str (to_string sample_status) ≡ ok sample_status
from_str-to_string_example = from_str-to_string sample_status sample-IsQuery
