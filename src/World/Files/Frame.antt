-- ===== src/World/Files/Frame.antt =====
-- Actions that touch neither the content of a file nor the bucket.
use reposync.Base.{◌≡◌, refl, ◌∙◌, Option, none, some, List, [], ◌∷◌, ◌++◌, Text, arith, texts_eq}
use reposync.World.Defs.{throw, World, Fs, Node, dir, file}
use reposync.World.Preorder.{IsPreorder, Keeps, Keeps-bind, Keeps-with_world, keeps_rules}
use reposync.World.Files.{
  node, put_node, fs_call, open_node, open_file, create_dirs, create_dir_all, make_dirs,
  set_or_refuse, components,
}

abbrev pub content_of : Option Node → Option Text
content_of none = none
content_of (some dir) = none
content_of (some (file b)) = some b

-- The content of the file at a path.
abbrev pub content : World → List Text → Option Text
content w q = content_of (node w.fs q)

pub record SameFiles (w w' : World) : Type 0 where
  pub contents : (q : List Text) → content w' q ≡ content w q
  pub bucket : w'.bucket ≡ w.bucket

pub SameFiles-refl : (w : World) → SameFiles w w
SameFiles-refl w = record { contents = λ q. refl; bucket = refl }

pub SameFiles-trans : {u v w : World} → SameFiles u v → SameFiles v w → SameFiles u w
SameFiles-trans h k = record {
  contents = λ q. k.contents q ∙ h.contents q;
  bucket = k.bucket ∙ h.bucket;
}

pub SameFiles-preorder : IsPreorder SameFiles
SameFiles-preorder = record {
  rel_refl = SameFiles-refl;
  rel_trans = λ u v w h k. SameFiles-trans h k;
}

fs_call_lem : (w : World) → SameFiles w (fs_call w).1
unfolding fs_call
fs_call_lem w = record { contents = λ q. ground arith; bucket = ground arith }

pub fs_call-SameFiles : Keeps SameFiles fs_call
fs_call-SameFiles = record { at = fs_call_lem }

open_node-SameFiles : (o : Option Node) → Keeps SameFiles (open_node o)
unfolding open_node
open_node-SameFiles none = search (SameFiles-preorder, keeps_rules)
open_node-SameFiles (some dir) = search (SameFiles-preorder, keeps_rules)
open_node-SameFiles (some (file b)) = search (SameFiles-preorder, keeps_rules)

pub open_file-SameFiles : (p : Text) → Keeps SameFiles (open_file p)
unfolding open_file
open_file-SameFiles p =
    Keeps-bind SameFiles-preorder _ _ fs_call-SameFiles
      λ _. Keeps-with_world _ (λ w. (open_node-SameFiles (node w.fs (components p))).at w)

make_dirs-content :
    (p rest : List Text) (fs fs' : Fs) (q : List Text)
    → make_dirs p rest fs ≡ some fs'
    → content_of (node fs' q) ≡ content_of (node fs q)
unfolding make_dirs
make_dirs-content p [] fs fs' q h = ground arith
make_dirs-content p (c ∷ rest) fs fs' q h = ground (
  arith,
  make_dirs-content (p ++ c ∷ []) rest (put_node (p ++ c ∷ []) dir fs) fs' q,
  make_dirs-content (p ++ c ∷ []) rest fs fs' q,
)

set_or_refuse-SameFiles :
    (o : Option Fs) (w : World)
    → ((fs : Fs) (q : List Text) → o ≡ some fs → content_of (node fs q) ≡ content w q)
    → SameFiles w (set_or_refuse o w).1
unfolding set_or_refuse throw
set_or_refuse-SameFiles none w h = SameFiles-refl w
set_or_refuse-SameFiles (some fs) w h = record { contents = λ q. h fs q refl; bucket = refl }

pub create_dirs-SameFiles : (p : List Text) → Keeps SameFiles (create_dirs p)
unfolding create_dirs
create_dirs-SameFiles p = Keeps-bind SameFiles-preorder _ _ fs_call-SameFiles λ _.
    Keeps-with_world _
      λ w. set_or_refuse-SameFiles (make_dirs [] p w.fs) w λ fs q. make_dirs-content [] p w.fs fs q

pub create_dir_all-SameFiles : (p : Text) → Keeps SameFiles (create_dir_all p)
unfolding create_dir_all
create_dir_all-SameFiles p = create_dirs-SameFiles (components p)
