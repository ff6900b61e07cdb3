-- ===== src/Utils/Kept.antt =====
-- What `add_optional_index` of src/utils.rs leaves alone, if the calls of the store do.
use reposync.Base.{ℕ, List, Text, Option, none, some, ◌==◌}
use reposync.Base.Outcome.{Outcome, ok, err, panic, IoError, not_found}
use reposync.Base.Crates.{Crates, Reader}
use reposync.Packages.{IndexFile, Signature}
use reposync.World.{World}
use reposync.World.Preorder.{
  IsPreorder, Keeps, Keeps-bind, Keeps-pure, Keeps-throw, Keeps-abort, Keeps-lift, Keeps-try,
  Keeps-unwrap, Keeps-if,
}
use reposync.State.{MetadataStore}
use reposync.Utils.{add_optional_index, added, expect, kind_eq}

pub expect-Keeps :
    {A : Type 0} {R : World → World → Type 0} → IsPreorder R → (o : Option A) → Keeps R (expect o)
unfolding expect
expect-Keeps p none = Keeps-abort p
expect-Keeps p (some a) = Keeps-pure p a

module _ ⦃lib : Crates⦄ (state : MetadataStore) {R : World → World → Type 0} (p : IsPreorder R)
    (fetch : (path : Text) → Keeps R (state.fetch path))
    (read : (path : Text) → Keeps R (state.read path)) where
  added-Keeps :
      (path : Text) (indexes : List IndexFile) (signature : Signature)
      (r : Outcome IoError (Text × Reader × ℕ))
      → Keeps R (added state path indexes signature r)
  unfolding added
  added-Keeps path indexes signature (err e) =
      Keeps-if (e.kind == not_found) _ _ (Keeps-pure p _) (Keeps-throw p _)
  added-Keeps path indexes signature panic = Keeps-abort p
  added-Keeps path indexes signature (ok (disk_path, reader, size)) =
      Keeps-bind p _ _ (Keeps-lift p _) λ hash.
        Keeps-bind p _ _ (Keeps-unwrap _ (read path))
          λ found. Keeps-bind p _ _ (expect-Keeps p found) λ again. Keeps-pure p _

  pub add_optional_index-Keeps :
      (path : Text) (indexes : List IndexFile) (signature : Signature)
      → Keeps R (add_optional_index state path indexes signature)
  unfolding add_optional_index
  add_optional_index-Keeps path indexes signature =
      Keeps-bind p _ _ (Keeps-try _ (fetch path)) (added-Keeps path indexes signature)
