-- ===== src/World/Files/Calls.antt =====
-- Single calls of the file system whose fault is known.
use reposync.Base.{◌+◌, ◌≡◌, false, none, some, [], Text, lit, arith}
use reposync.Base.Outcome.{ok, err, IoError, io_error, unlisted}
use reposync.Base.Crates.{Reader}
use reposync.World.Defs.{World, dir, ◌>>=◌}
use reposync.World.Files.{
  fs_call, open_file, open_node, rename, rename_at, rename_dir, node, components, is_empty_dir,
}

-- The state after a call that changes nothing.
abbrev pub called : World → World
called w = record w { fs_calls = w.fs_calls + 1 }

module _ (w : World) (no_fault : w.fs_fault w.fs_calls ≡ none) where
  pub open_file-dir :
      (p : Text)
      → node w.fs (components p) ≡ some dir
      → (r : Reader) × (open_file p w ≡ (ok r, called w))
  unfolding open_file open_node fs_call ◌>>=◌
  open_file-dir p e = (
    record { content = []; failure = some (lit "Is a directory (os error 21)") },
    ground (arith, no_fault, e),
  )

  -- A directory is not renamed to one that has entries.
  pub rename-refused :
      (a b : Text)
      → node w.fs (components a) ≡ some dir
      → node w.fs (components b) ≡ some dir
      → is_empty_dir (components b) w.fs ≡ false
      → (e : IoError) × (rename a b w ≡ (err e, called w))
  unfolding rename rename_at rename_dir fs_call ◌>>=◌
  rename-refused a b e f g = (
    io_error unlisted (lit "the operation does not fit the file's type"),
    ground (arith, no_fault, e, f, g),
  )
