-- ===== src/Sync/Manager/Permissions/Checked.antt =====
-- When `check_permissions` of src/sync.rs is content, and so the health check of src/server.rs.
use mathlib.Core.Path.{subst}
use reposync.Base.{ℕ, ◌+◌, ◌≡◌, ◌↔◌, false, none, some, Text, arith}
use reposync.Base.Outcome.{ok}
use reposync.Config.Data.{GeneralConfig}
use reposync.World.{World, dir, ◌>>=◌}
use reposync.World.Bind.{Returns, bind-Returns}
use reposync.World.Files.{node, components}
use reposync.Sync.Manager.Permissions.{check_writable, check_permissions}

-- An entry is a directory with a write permission in its mode, for whomever: `readonly()` is false.
abbrev pub IsNotReadOnly : World → Text → Type 0
IsNotReadOnly w p = (node w.fs (components p) ≡ some dir) × (w.read_only (components p) ≡ false)

-- The two calls of the file system from a number on do not fail by themselves.
abbrev pub AreSound : World → ℕ → Type 0
AreSound w n = (w.fs_fault n ≡ none) × (w.fs_fault (n + 1) ≡ none)

-- The state after two calls that change nothing.
abbrev two_calls : World → World
two_calls w = record w { fs_calls = w.fs_calls + 1 + 1 }

check_writable-Returns :
    (p : Text) (w : World)
    → IsNotReadOnly w p
    → AreSound w w.fs_calls
    → Returns (check_writable p) w tt (two_calls w)
unfolding check_writable ◌>>=◌
check_writable-Returns p w h s = ground arith

check_writable-IsNotReadOnly :
    (p : Text) (w w' : World)
    → Returns (check_writable p) w tt w'
    → IsNotReadOnly w p × AreSound w w.fs_calls
unfolding check_writable ◌>>=◌
check_writable-IsNotReadOnly p w w' h = ground arith

-- Both paths of the configuration are directories with a write permission, and no call fails.
abbrev pub IsHealthy : GeneralConfig → World → Type 0
IsHealthy general w =
    IsNotReadOnly w general.data_path
    × IsNotReadOnly w general.tmp_path
    × AreSound w w.fs_calls
    × AreSound w (w.fs_calls + 1 + 1)

permitted :
    (general : GeneralConfig) (w : World)
    → IsHealthy general w
    → (check_permissions general w).0 ≡ ok tt
unfolding check_permissions ◌>>=◌
permitted general w (d, t, s, s') =
    let first = check_writable-Returns general.data_path w d s in
    let last = check_writable-Returns general.tmp_path (two_calls w) t s' in
    ground (arith, first, last)

permitted-IsHealthy :
    (general : GeneralConfig) (w w' : World)
    → Returns (check_permissions general) w tt w'
    → IsHealthy general w
unfolding check_permissions
permitted-IsHealthy general w w' h =
    let (_, first, last) = bind-Returns (check_writable general.data_path) _ w w' tt h in
    let (d, s) = check_writable-IsNotReadOnly general.data_path w _ first in
    let e = check_writable-Returns general.data_path w d s in
    let (t, s') =
      check_writable-IsNotReadOnly general.tmp_path (two_calls w) w'
        (subst (λ z. Returns (check_writable general.tmp_path) z tt w') (λ i. (e i).1) last) in
    (d, t, s, s')

-- The permissions are accepted exactly if the state is healthy.
pub check_permissions-IsHealthy :
    (general : GeneralConfig) (w : World)
    → ((check_permissions general w).0 ≡ ok tt) ↔ IsHealthy general w
check_permissions-IsHealthy general w = (
  λ h. permitted-IsHealthy general w _ (λ i. (h i, (check_permissions general w).1)),
  permitted general w,
)
