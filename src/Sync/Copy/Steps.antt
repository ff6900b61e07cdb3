-- ===== src/Sync/Copy/Steps.antt =====
-- One file of `copy_internal`: what is checked before it is uploaded, and what it may change.
use reposync.Base.{
  ◌≡◌, ◌≢◌, inl, inr, true, Option, none, some, List, ◌++◌, Text, lit, length, arith, ℕ_eq,
  Option-cases,
}
use mathlib.Core.Path.{subst}
use reposync.Base.Outcome.{Outcome, ok, err, panic}
use reposync.Base.Crates.{Crates, Reader}
use reposync.Packages.{matches}
use reposync.World.{World, Exec, ◌>>=◌}
use reposync.World.Preorder.{
  Keeps, IsPreorder, Keeps-bind, Keeps-try, Keeps-with_context, keeps_rules, SameAt,
  SameAt-preorder,
}
use reposync.World.Bind.{Returns, bind-Returns}
use reposync.World.Files.{fs_call}
use reposync.World.Files.Frame.{
  SameFiles, SameFiles-preorder, fs_call-SameFiles, open_file-SameFiles,
}
use reposync.Fetcher.{Fetcher, FetchError}
use reposync.Destination.{Destination, IsLawful}
use reposync.Sync.Diff.{CopyOperation}
use reposync.Sync.Copy.{spool, fetched, obtain_from, obtain, validated, copy_one}

-- A fetcher that writes no file and no object.
abbrev pub IsQuiet : Fetcher → Type 0
IsQuiet fetcher = (url : Text) → Keeps SameFiles (fetcher url)

spool-SameFiles : (r : Reader) → Keeps SameFiles (spool r)
unfolding spool
spool-SameFiles r = Keeps-bind SameFiles-preorder _ _ fs_call-SameFiles λ _.
    elim (Option-cases r.failure) [
      | inl e ↦ rw e (search (SameFiles-preorder, keeps_rules))
      | inr (x, e) ↦ rw e (search (SameFiles-preorder, keeps_rules))
    ]

fetched-SameFiles : (path : Text) (r : Outcome FetchError Reader) → Keeps SameFiles (fetched path r)
unfolding fetched
fetched-SameFiles path (ok r) =
    search (SameFiles-preorder, keeps_rules, fs_call-SameFiles, spool-SameFiles)
fetched-SameFiles path (err e) = search (SameFiles-preorder, keeps_rules)
fetched-SameFiles path panic = search (SameFiles-preorder, keeps_rules)

obtain_from-SameFiles :
    (endpoint : Text) (fetcher : Fetcher) (path : Text) (local_file : Option Text)
    → IsQuiet fetcher
    → Keeps SameFiles (obtain_from endpoint fetcher path local_file)
unfolding obtain_from
obtain_from-SameFiles endpoint fetcher path none quiet =
    Keeps-bind SameFiles-preorder _ _ (Keeps-try _ (quiet (endpoint ++ lit "/" ++ path)))
      (fetched-SameFiles path)
obtain_from-SameFiles endpoint fetcher path (some p) quiet =
    Keeps-with_context _ _ (open_file-SameFiles p)

pub obtain-SameFiles :
    (endpoint : Text) (fetcher : Fetcher) (op : CopyOperation)
    → IsQuiet fetcher
    → Keeps SameFiles (obtain endpoint fetcher op)
unfolding obtain
obtain-SameFiles endpoint fetcher op quiet =
    obtain_from-SameFiles endpoint fetcher op.path op.local_file quiet

module _ ⦃lib : Crates⦄ where
  -- What the checks have found of a file, once it is uploaded.
  pub record IsChecked (op : CopyOperation) (r : Reader) : Type 0 where
    pub hashed : matches op.hash r ≡ ok true
    pub sized : length r.content ≡ op.size

  validated-IsChecked :
      (op : CopyOperation) (r : Reader) (w : World) → (validated op r w).0 ≡ ok tt → IsChecked op r
  unfolding validated ◌>>=◌
  validated-IsChecked op r w h = ground arith

  pub validated-SameFiles : (op : CopyOperation) (r : Reader) → Keeps SameFiles (validated op r)
  unfolding validated
  validated-SameFiles op r = search (SameFiles-preorder, keeps_rules, fs_call-SameFiles) depth 9

  module _ (d : Destination) (l : IsLawful d) where
    SameAt-view : (q : List Text) → IsPreorder (SameAt (λ w. l.view w q))
    SameAt-view q = SameAt-preorder (λ w. l.view w q)

    -- What leaves all files and objects alone leaves the view alone.
    pub still :
        {E A : Type 0} (q : List Text) {m : Exec E A}
        → Keeps SameFiles m
        → Keeps (SameAt (λ w. l.view w q)) m
    still q {m} h = record { at = λ w. l.view-SameFiles w (m w).1 q (h.at w) }

    module _ (endpoint : Text) (fetcher : Fetcher) (quiet : IsQuiet fetcher)
        (op : CopyOperation) where
      -- A file at another place is left alone, whatever the outcome.
      pub copy_one-SameAt :
          (q : List Text)
          → l.locate op.path ≢ q
          → Keeps (SameAt (λ w. l.view w q)) (copy_one endpoint fetcher d op)
      unfolding copy_one
      copy_one-SameAt q other =
          Keeps-bind (SameAt-view q) _ _ (still q (obtain-SameFiles endpoint fetcher op quiet)) λ r.
            Keeps-bind (SameAt-view q) _ _ (still q (validated-SameFiles op r)) λ _.
              Keeps-bind (SameAt-view q) _ _ (still q fs_call-SameFiles)
                λ _. record { at = λ w. l.upload_ne op.path r w q other }

      -- An operation that succeeds has stored a file that passed the checks.
      pub copy_one-IsChecked :
          (w w' : World)
          → Returns (copy_one endpoint fetcher d op) w tt w'
          → (r : Reader) × IsChecked op r × (l.view w' (l.locate op.path) ≡ some r.content)
      unfolding copy_one
      copy_one-IsChecked w w' h =
          let (r, _, h₁) = bind-Returns (obtain endpoint fetcher op) _ w w' tt h in
          let u : World = (obtain endpoint fetcher op w).1 in
          let (_, v, h₂) = bind-Returns (validated op r) _ u w' tt h₁ in
          let (_, _, h₃) = bind-Returns fs_call _ (validated op r u).1 w' tt h₂ in
          let t : World = (fs_call (validated op r u).1).1 in
          (
            r,
            validated-IsChecked op r u (λ i. (v i).0),
            subst (λ z. l.view z (l.locate op.path) ≡ some r.content) (λ i. (h₃ i).1)
                (l.upload_ok op.path r t (λ i. (h₃ i).0)),
          )
