-- ===== src/Destination.antt =====
-- src/destination.rs: where a repository is mirrored to.
pub mod Stream
pub mod Local
pub mod S3
pub mod Create
use reposync.Base.{◌≡◌, Option, List, Text, ◌==◌, texts_eq, if◌then◌else◌, ◌≢◌, some, none}
use reposync.Base.Outcome.{Outcome, ok, err, panic}
use reposync.Base.Crates.{Reader}
use reposync.World.{World, Io}
use reposync.World.Files.Frame.{SameFiles}

-- `trait Destination`. An opened `File` is what it gives when it is read from its start.
pub record Destination : Type 0 where
  pub upload : Text → Reader → Io (Unit {0})
  pub delete : Text → Io (Unit {0})
  pub invalidate : List Text → Io (Unit {0})
  pub name : Text

-- What a client of a destination relies on. `locate` tells which paths name one file, and `view`
-- is the content of the files that the mirror serves.
pub record IsLawful (d : Destination) : Type 0 where
  pub locate : Text → List Text
  pub view : World → List Text → Option Text
  pub upload_ok :
      (p : Text) (r : Reader) (w : World)
      → (d.upload p r w).0 ≡ ok tt
      → view (d.upload p r w).1 (locate p) ≡ some r.content
  pub upload_ne :
      (p : Text) (r : Reader) (w : World) (q : List Text)
      → locate p ≢ q
      → view (d.upload p r w).1 q ≡ view w q
  pub delete_ok :
      (p : Text) (w : World) → (d.delete p w).0 ≡ ok tt → view (d.delete p w).1 (locate p) ≡ none
  pub delete_ne :
      (p : Text) (w : World) (q : List Text) → locate p ≢ q → view (d.delete p w).1 q ≡ view w q
  pub view-invalidate :
      (ps : List Text) (w : World) (q : List Text) → view (d.invalidate ps w).1 q ≡ view w q
  pub view-SameFiles : (w w' : World) (q : List Text) → SameFiles w w' → view w' q ≡ view w q
