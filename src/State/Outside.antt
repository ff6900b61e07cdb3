-- ===== src/State/Outside.antt =====
-- The downloads of src/state.rs write below the temporary directory only.
use mathlib.Core.Path.{subst}
use mathlib.Core.List.{append_assoc}
use reposync.Base.{◌≡◌, false, List, [], ◌∷◌, Text, lit, sym, contains_text}
use reposync.Base.Outcome.{Outcome, ok, err, panic, IoError}
use reposync.Base.Crates.{Crates, Reader}
use reposync.World.Preorder.{
  Keeps, Keeps-bind, Keeps-pure, Keeps-throw, Keeps-abort, Keeps-try, Keeps-unwrap, Keeps-if,
  SameAt-preorder, IsPreorder,
}
use reposync.World.Files.{components, is_below, write_file}
use reposync.World.Files.Frame.{SameFiles, content, open_file-SameFiles, create_dir_all-SameFiles}
use reposync.World.Files.Writes.{SameContent, SameFiles-content}
use reposync.World.Files.Below.{write_file-below, remove_dir_all-outside}
use reposync.Fetcher.{Fetcher, FetchError}
use reposync.State.{
  LiveRepoMetadataStore, disk_path, live_stored, live_fetch, opened, live_read, live_new, exists,
}

module _ (q : List Text) where
  abbrev P : IsPreorder (SameContent q)
  P = SameAt-preorder (λ w. content w q)

  module _ ⦃lib : Crates⦄ (directory : Text)
      (outside : is_below (components directory) q ≡ false) where
    stored-outside :
        (path : Text) (r : Reader) → Keeps (SameContent q) (write_file (disk_path directory path) r)
    unfolding disk_path lit
    stored-outside path r =
        subst (λ z. Keeps (SameContent q) (write_file z r))
          (sym (append_assoc directory (47 ∷ []) (lib.base32 path)))
          (write_file-below directory (lib.base32 path) q r outside)

    live_stored-outside :
        (path : Text) (r : Outcome FetchError Reader)
        → Keeps (SameContent q) (live_stored path (disk_path directory path) r)
    unfolding live_stored
    live_stored-outside path (ok reader) = Keeps-bind P _ _ (stored-outside path reader) λ size.
        Keeps-bind P _ _ (Keeps-unwrap _ (SameFiles-content q (open_file-SameFiles _)))
          λ _. Keeps-pure P _
    live_stored-outside path (err e) = Keeps-throw P _
    live_stored-outside path panic = Keeps-abort P

    pub live_fetch-outside :
        (url : Text) (fetcher : Fetcher) (path : Text)
        → ((u : Text) → Keeps SameFiles (fetcher u))
        → Keeps (SameContent q) (
            live_fetch
              (record { repo_base_url = url; tmp_directory = directory; fetcher = fetcher })
              path)
    unfolding live_fetch
    live_fetch-outside url fetcher path quiet =
        Keeps-bind P _ _ (SameFiles-content q (create_dir_all-SameFiles directory)) λ _.
          Keeps-bind P _ _ (Keeps-try _ (SameFiles-content q (quiet _)))
            λ r. live_stored-outside path r

    opened-outside : (r : Outcome IoError Reader) → Keeps (SameContent q) (opened r)
    unfolding opened
    opened-outside (ok file) = Keeps-pure P _
    opened-outside (err e) = Keeps-pure P _
    opened-outside panic = Keeps-abort P

    pub live_read-outside :
        (store : LiveRepoMetadataStore) (path : Text) → Keeps (SameContent q) (live_read store path)
    unfolding live_read
    live_read-outside store path =
        Keeps-bind P _ _ (Keeps-try _ (SameFiles-content q (open_file-SameFiles _))) opened-outside

  pub exists-outside : (p : Text) → Keeps (SameContent q) (exists p)
  unfolding exists
  exists-outside p =
      Keeps-bind P _ _ (Keeps-try _ (SameFiles-content q (open_file-SameFiles p)))
        λ r. Keeps-pure P _

  pub live_new-outside :
      (url directory : Text) (fetcher : Fetcher)
      → is_below (components directory) q ≡ false
      → Keeps (SameContent q) (live_new url directory fetcher)
  unfolding live_new
  live_new-outside url directory fetcher outside =
      Keeps-if (contains_text directory (lit "tmp")) _ _
        (Keeps-bind P _ _ (exists-outside directory) λ left.
          Keeps-bind P _ _
            (Keeps-if left _ _ (remove_dir_all-outside directory q outside) (Keeps-pure P tt))
            λ _. Keeps-pure P _)
        (Keeps-abort P)
