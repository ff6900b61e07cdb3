-- ===== src/Server/Health.antt =====
-- What the health check of src/server.rs says of the file system.
use reposync.Base.{◌≡◌, ◌↔◌, arith}
use reposync.Base.Outcome.{Outcome, ok, err, panic, IoError}
use reposync.Config.Data.{Config}
use reposync.World.{World}
use reposync.Sync.Manager.Permissions.{check_permissions}
use reposync.Sync.Manager.Permissions.Checked.{IsHealthy, check_permissions-IsHealthy}
use reposync.Server.{empty_response_when_everything_is_ok, health_response, health_get}

health_response-ok :
    (r : Outcome IoError (Unit {0}))
    → (health_response r ≡ ok empty_response_when_everything_is_ok) ↔ (r ≡ ok tt)
unfolding health_response
health_response-ok (ok tt) = ground arith
health_response-ok (err e) = ground arith
health_response-ok panic = ground arith

-- The service reports that everything is well exactly if the data path and the temporary path are
-- directories whose mode is not read-only, and none of the four calls of the file system fails.
-- Whether the service itself may write there is not asked.
pub health_get-IsHealthy :
    (config : Config) (w : World)
    → (health_get config w ≡ ok empty_response_when_everything_is_ok) ↔ IsHealthy config.general w
unfolding health_get
health_get-IsHealthy config w =
    let (to, from) = health_response-ok (check_permissions config.general w).0 in
    let (down, up) = check_permissions-IsHealthy config.general w in
    (λ h. down (to h), λ h. from (up h))
