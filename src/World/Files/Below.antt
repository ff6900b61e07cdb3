-- ===== src/World/Files/Below.antt =====
-- Places below a directory: the paths that the program builds, and what a removal leaves.
use reposync.Base.{
  ◌≡◌, refl, ◌∙◌, ap, false, Option, none, some, List, [], ◌∷◌, ◌++◌, Text, arith, texts_eq,
  text_eq, ◌==◌, if◌then◌else◌, ==_self, eq_of_==, Bool-cases, inl, inr,
}
use reposync.Base.Crates.{Reader}
use reposync.World.Defs.{World, Fs, Node, dir, file, throw, with_world}
use reposync.World.Preorder.{Keeps, Keeps-bind, Keeps-with_world, SameAt-preorder}
use reposync.World.Files.{
  split_path, without_dots, components, strip, is_below, node, drop_tree, remove_dir_all,
  remove_tree_at, set_fs, write_file,
}
use reposync.World.Files.Frame.{content, content_of, fs_call-SameFiles}
use reposync.World.Files.Writes.{SameContent, SameFiles-content, write_file-ne}

split_path-append :
    (acc a b : Text) → split_path acc (a ++ (47 ∷ b)) ≡ split_path acc a ++ split_path [] b
unfolding split_path
split_path-append [] [] b = ground arith
split_path-append (x ∷ xs) [] b = ground arith
split_path-append acc (c ∷ a) b =
    ground (arith, split_path-append (acc ++ c ∷ []) a b, split_path-append [] a b)

without_dots-append : (a b : List Text) → without_dots (a ++ b) ≡ without_dots a ++ without_dots b
unfolding without_dots
without_dots-append [] b = refl
without_dots-append (n ∷ a) b = ground (arith, without_dots-append a b)

-- A slash joins the components of two paths.
pub components-append : (a b : Text) → components (a ++ (47 ∷ b)) ≡ components a ++ components b
unfolding components
components-append a b =
    ap without_dots (split_path-append [] a b)
    ∙ without_dots-append (split_path [] a) (split_path [] b)

pub strip-append : (p r : List Text) → strip p (p ++ r) ≡ some r
unfolding strip
strip-append [] r = refl
strip-append (c ∷ p) r = ground (arith, ==_self c, strip-append p r)

-- A place that is not below a directory is none of the places below it.
below-ne : (p q : List Text) (r : List Text) → is_below p q ≡ false → (p ++ r == q) ≡ false
below-ne p q r h = elim (Bool-cases (p ++ r == q)) [
  | inr n ↦ n
  | inl e ↦ absurd (ground (arith, strip-append p r, ap (strip p) (eq_of_== (p ++ r) q e)))
]

-- A write below a directory leaves the places alone that are not below it.
pub write_file-below :
    (directory name : Text) (q : List Text) (r : Reader)
    → is_below (components directory) q ≡ false
    → Keeps (SameContent q) (write_file (directory ++ (47 ∷ name)) r)
write_file-below directory name q r h =
    write_file-ne (directory ++ (47 ∷ name)) q r
      (rw components-append (below-ne (components directory) q (components name) h))

pub node-drop_tree :
    (p q : List Text) (fs : Fs)
    → node (drop_tree p fs) q ≡ (if is_below p q then none else node fs q)
unfolding drop_tree
node-drop_tree p q [] = ground arith
node-drop_tree p q ((r, n) ∷ fs) = elim (Bool-cases (r == q)) [
  | inl e ↦
      let same : is_below p r ≡ is_below p q = ap (is_below p) (eq_of_== r q e) in
      ground (arith, node-drop_tree p q fs, same)
  | inr other ↦ ground (arith, node-drop_tree p q fs)
]

remove_tree_at-outside :
    (o : Option Node) (p q : List Text) (w : World)
    → is_below p q ≡ false
    → content (remove_tree_at o p w).1 q ≡ content w q
unfolding remove_tree_at set_fs throw with_world
remove_tree_at-outside none p q w h = refl
remove_tree_at-outside (some (file b)) p q w h = refl
remove_tree_at-outside (some dir) p q w h = ap content_of (node-drop_tree p q w.fs ∙ rw h refl)

pub remove_dir_all-outside :
    (p : Text) (q : List Text)
    → is_below (components p) q ≡ false
    → Keeps (SameContent q) (remove_dir_all p)
unfolding remove_dir_all
remove_dir_all-outside p q h =
    Keeps-bind (SameAt-preorder (λ w. content w q)) _ _ (SameFiles-content q fs_call-SameFiles) λ _.
      Keeps-with_world _
        (λ w. remove_tree_at-outside (node w.fs (components p)) (components p) q w h)
