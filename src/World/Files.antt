-- ===== src/World/Files.antt =====
-- `std::fs` on the local file system. A call that fails by a fault changes nothing.
pub mod Frame
pub mod Bucket
pub mod Calls
pub mod Writes
pub mod Below
pub mod Moves
pub mod Opened
use reposync.Base.{
  ℕ, ◌+◌, Bool, true, false, not, ◌&&◌, Option, none, some, List, [], ◌∷◌, ◌++◌, Text, lit, length,
  ◌==◌, ℕ_eq, text_eq, texts_eq, if◌then◌else◌, is_some, contains, ◌≡◌,
}
use reposync.Base.Outcome.{ok, err, io_error, not_found, unlisted}
use reposync.Base.Crates.{Reader}
use reposync.World.Defs.{Fs, Node, dir, file, Io, pure, throw, with_world, ◌>>◌}

-- The names between the slashes of a path: the empty ones that doubled slashes give do not count.
split_path : Text → Text → List Text
split_path [] [] = []
split_path (x ∷ xs) [] = (x ∷ xs) ∷ []
split_path acc (c ∷ s) =
    let more = split_path (acc ++ c ∷ []) s in
    let next = split_path [] s in if c == 47 then (if acc == [] then next else acc ∷ next) else more

-- The name `.` stands for the directory it is in.
without_dots : List Text → List Text
without_dots [] = []
without_dots (n ∷ names) = let rest = without_dots names in if n == 46 ∷ [] then rest else n ∷ rest

-- The components of a path. Every path is taken from the root, no entry is a link, and the name `..`
-- is not resolved: it is a name as any other, so what is said of a path with it says nothing of the
-- program.
unfoldable pub components : Text → List Text
unfolding split_path without_dots
components p = without_dots (split_path [] p)

-- No component of the path is `..`.
abbrev pub IsResolved : Text → Type 0
IsResolved p = contains (components p) (46 ∷ 46 ∷ []) ≡ false

-- `strip_prefix`: what stands behind the components of the first path.
unfoldable pub strip : List Text → List Text → Option (List Text)
strip [] q = some q
strip (a ∷ p) [] = none
strip (a ∷ p) (b ∷ q) = if a == b then strip p q else none

abbrev pub is_below : List Text → List Text → Bool
is_below p q = is_some (strip p q)

abbrev pub node : Fs → List Text → Option Node
node [] q = none
node ((p, n) ∷ fs) q = if p == q then some n else node fs q

abbrev pub put_node : List Text → Node → Fs → Fs
put_node p n fs = (p, n) ∷ fs

unfoldable pub drop_tree : List Text → Fs → Fs
drop_tree p [] = []
drop_tree p ((q, n) ∷ fs) =
    let rest = drop_tree p fs in if is_below p q then rest else (q, n) ∷ rest

-- The entries below `a` are found below `b`; what stood there before is gone.
moved : List Text → List Text → List Text → Option (List Text)
moved a b q = elim (strip a q) [
  | some rest ↦ some (b ++ rest)
  | none ↦ if is_below b q then none else some q
]

unfoldable pub move_tree : List Text → List Text → Fs → Fs
unfolding moved
move_tree a b [] = []
move_tree a b ((q, n) ∷ fs) =
    let rest = move_tree a b fs in elim (moved a b q) [ some q' ↦ (q', n) ∷ rest | none ↦ rest ]

-- A directory with no entry in it.
unfoldable pub is_empty_dir : List Text → Fs → Bool
is_empty_dir p [] = true
is_empty_dir p ((q, n) ∷ fs) =
    let rest = is_empty_dir p fs in if is_below p q && not (p == q) then false else rest

-- The fault of this call, if it has one.
unfoldable pub fs_call : Io (Unit {0})
fs_call w =
    let w' = record w { fs_calls = w.fs_calls + 1 } in
    elim (w.fs_fault w.fs_calls) [ none ↦ (ok tt, w') | some e ↦ (err e, w') ]

abbrev no_entry : {A : Type 0} → Io A
no_entry = throw (io_error not_found (lit "No such file or directory (os error 2)"))

abbrev refused : {A : Type 0} → Io A
refused = throw (io_error unlisted (lit "the operation does not fit the file's type"))

-- `File::open`. A directory can be opened, and a read of it fails.
open_node : Option Node → Io Reader
open_node none = no_entry
open_node (some dir) =
    pure (record { content = []; failure = some (lit "Is a directory (os error 21)") })
open_node (some (file b)) = pure (record { content = b; failure = none })

unfoldable pub open_file : Text → Io Reader
unfolding open_node fs_call
open_file p = do fs_call; with_world (λ w. open_node (node w.fs (components p)))

set_fs : Fs → Io (Unit {0})
set_fs fs w = (ok tt, record w { fs = fs })

-- The directories of `rest`, one below the other, from `p` down.
make_dirs : List Text → List Text → Fs → Option Fs
make_dirs p [] fs = some fs
make_dirs p (c ∷ rest) fs =
    let q = p ++ c ∷ [] in
    elim (node fs q) [
      | none ↦ make_dirs q rest (put_node q dir fs)
      | some dir ↦ make_dirs q rest fs
      | some (file b) ↦ none
    ]

set_or_refuse : Option Fs → Io (Unit {0})
unfolding set_fs
set_or_refuse none = refused
set_or_refuse (some fs) = set_fs fs

-- `create_dir_all`, of a path by its components
unfoldable pub create_dirs : List Text → Io (Unit {0})
unfolding set_or_refuse make_dirs fs_call
create_dirs p = do fs_call; with_world (λ w. set_or_refuse (make_dirs [] p w.fs))

unfoldable pub create_dir_all : Text → Io (Unit {0})
unfolding create_dirs components
create_dir_all p = create_dirs (components p)

-- `Path::parent`
unfoldable pub parent : List Text → List Text
parent [] = []
parent (c ∷ []) = []
parent (c ∷ d ∷ p) = c ∷ parent (d ∷ p)

is_dir : List Text → Fs → Bool
is_dir [] fs = true
is_dir (c ∷ p) fs = elim (node fs (c ∷ p)) [ some dir ↦ true | _ ↦ false ]

write_node : List Text → Text → Fs → Option Fs
unfolding is_dir parent
write_node p b fs = elim (node fs p) [
  | some dir ↦ none
  | some (file _) ↦ some (put_node p (file b) fs)
  | none ↦ if is_dir (parent p) fs then some (put_node p (file b) fs) else none
]

write_at : List Text → Text → Io (Unit {0})
unfolding write_node set_or_refuse
write_at p b = with_world (λ w. set_or_refuse (write_node p b w.fs))

-- The number of the bytes, or the failure of the reader.
written : Option Text → ℕ → Io ℕ
written none n = pure n
written (some e) n = throw (io_error unlisted e)

-- `File::create`, which empties the file, and `io::copy` of a reader into it; returns the number
-- of the bytes written. A failing reader leaves what it gave before.
unfoldable pub write_file : Text → Reader → Io ℕ
unfolding write_at written fs_call
write_file p r = do
  fs_call
  write_at (components p) []
  fs_call
  write_at (components p) r.content
  written r.failure (length r.content)

remove_tree_at : Option Node → List Text → Io (Unit {0})
unfolding set_fs drop_tree
remove_tree_at none p = no_entry
remove_tree_at (some (file b)) p = refused
remove_tree_at (some dir) p = with_world (λ w. set_fs (drop_tree p w.fs))

-- `remove_dir_all`
unfoldable pub remove_dir_all : Text → Io (Unit {0})
unfolding remove_tree_at fs_call
remove_dir_all p = do
  fs_call
  with_world (λ w. remove_tree_at (node w.fs (components p)) (components p))

drop_node : List Text → Fs → Fs
drop_node p [] = []
drop_node p ((q, n) ∷ fs) = let rest = drop_node p fs in if p == q then rest else (q, n) ∷ rest

remove_file_at : Option Node → List Text → Io (Unit {0})
unfolding set_fs drop_node
remove_file_at none p = no_entry
remove_file_at (some dir) p = refused
remove_file_at (some (file b)) p = with_world (λ w. set_fs (drop_node p w.fs))

-- `remove_file`
unfoldable pub remove_file : Text → Io (Unit {0})
unfolding remove_file_at fs_call
remove_file p = do
  fs_call
  with_world (λ w. remove_file_at (node w.fs (components p)) (components p))

-- What `rename` does to a directory: the new name may be that of an empty directory, of no other.
rename_dir : Option Node → List Text → List Text → Io (Unit {0})
unfolding set_fs move_tree is_empty_dir
rename_dir none a b w = set_fs (move_tree a b w.fs) w
rename_dir (some (file _)) a b w = refused w
rename_dir (some dir) a b w =
    if is_empty_dir b w.fs then set_fs (move_tree a b w.fs) w else refused w

rename_at : Option Node → List Text → List Text → Io (Unit {0})
unfolding rename_dir
rename_at none a b = no_entry
rename_at (some (file _)) a b = refused
rename_at (some dir) a b = with_world (λ w. rename_dir (node w.fs b) a b)

-- `std::fs::rename`; the program renames directories only.
unfoldable pub rename : Text → Text → Io (Unit {0})
unfolding rename_at fs_call
rename a b = do
  fs_call
  with_world (λ w. rename_at (node w.fs (components a)) (components a) (components b))
