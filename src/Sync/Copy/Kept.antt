-- ===== src/Sync/Copy/Kept.antt =====
-- What the copies and deletions of src/sync.rs leave alone, if the calls of the destination do.
use reposync.Base.{List, [], ◌∷◌, Text}
use reposync.Base.Crates.{Crates, Reader}
use reposync.World.{World, Exec}
use reposync.World.Preorder.{
  IsPreorder, Keeps, Keeps-bind, Keeps-pure, Keeps-unwrap, Keeps-with_context,
}
use reposync.World.Files.Frame.{SameFiles, fs_call-SameFiles, create_dir_all-SameFiles}
use reposync.Fetcher.{Fetcher}
use reposync.Destination.{Destination}
use reposync.Sync.Diff.{CopyOperation}
use reposync.Sync.Copy.{copy_one, copy_loop, copy_internal, copy}
use reposync.Sync.Copy.Steps.{IsQuiet, obtain-SameFiles, validated-SameFiles}

module _ ⦃lib : Crates⦄ {R : World → World → Type 0} (p : IsPreorder R)
    (still : (w w' : World) → SameFiles w w' → R w w') (d : Destination)
    (upload : (path : Text) (r : Reader) → Keeps R (d.upload path r)) where
  calm : {E A : Type 0} {m : Exec E A} → Keeps SameFiles m → Keeps R m
  calm {m} h = record { at = λ w. still w (m w).1 (h.at w) }

  module _ (endpoint : Text) (fetcher : Fetcher) (quiet : IsQuiet fetcher) where
    copy_one-Keeps : (op : CopyOperation) → Keeps R (copy_one endpoint fetcher d op)
    unfolding copy_one
    copy_one-Keeps op = Keeps-bind p _ _ (calm (obtain-SameFiles endpoint fetcher op quiet)) λ r.
        Keeps-bind p _ _ (calm (validated-SameFiles op r))
          λ _. Keeps-bind p _ _ (calm fs_call-SameFiles) λ _. upload op.path r

    copy_loop-Keeps : (ops : List CopyOperation) → Keeps R (copy_loop endpoint fetcher d ops)
    unfolding copy_loop
    copy_loop-Keeps [] = Keeps-pure p _
    copy_loop-Keeps (op ∷ ops) =
        Keeps-bind p _ _ (copy_one-Keeps op)
          λ _. Keeps-bind p _ _ (copy_loop-Keeps ops) λ paths. Keeps-pure p _

    pub copy-Keeps :
        (tmp : Text) (ops : List CopyOperation) → Keeps R (copy tmp endpoint fetcher d ops)
    unfolding copy copy_internal
    copy-Keeps tmp ops = Keeps-with_context _ _ (
        Keeps-bind p _ _ (Keeps-unwrap _ (calm (create_dir_all-SameFiles tmp)))
          λ _. copy_loop-Keeps ops)
