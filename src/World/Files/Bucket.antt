-- ===== src/World/Files/Bucket.antt =====
-- The file system's actions leave the bucket alone.
use reposync.Base.{ℕ, [], refl, ◌≡◌, Option, none, some, List, Text, arith}
use reposync.World.Defs.{Fs, World, Exec, throw, Node, dir, file, with_world}
use reposync.World.Preorder.{
  Keeps-pure, Keeps-throw, IsPreorder, Keeps, SameAt-preorder, Keeps-bind, Keeps-with_world,
}
use reposync.Base.Crates.{Reader}
use reposync.World.Files.{
  set_or_refuse, write_node, write_at, written, write_file, rename, rename_at, rename_dir,
  remove_dir_all, remove_tree_at, set_fs, node, components,
}
use reposync.World.Files.Frame.{SameFiles, fs_call-SameFiles}

abbrev pub SameBucket : World → World → Type 0
SameBucket w w' = w'.bucket ≡ w.bucket

pub bucket-preorder : IsPreorder SameBucket
bucket-preorder = SameAt-preorder (λ w. w.bucket)

pub SameFiles-bucket : {E A : Type 0} {m : Exec E A} → Keeps SameFiles m → Keeps SameBucket m
SameFiles-bucket h = record { at = λ w. (h.at w).bucket }

remove_tree_at-bucket :
    (o : Option Node) (p : List Text) (w : World) → SameBucket w (remove_tree_at o p w).1
unfolding remove_tree_at set_fs throw with_world
remove_tree_at-bucket none p w = refl
remove_tree_at-bucket (some (file b)) p w = refl
remove_tree_at-bucket (some dir) p w = refl

pub remove_dir_all-bucket : (p : Text) → Keeps SameBucket (remove_dir_all p)
unfolding remove_dir_all
remove_dir_all-bucket p =
    Keeps-bind bucket-preorder _ _ (SameFiles-bucket fs_call-SameFiles) λ _.
      Keeps-with_world _ (λ w. remove_tree_at-bucket (node w.fs (components p)) (components p) w)

rename_dir-bucket :
    (o : Option Node) (a b : List Text) (w : World) → SameBucket w (rename_dir o a b w).1
unfolding rename_dir set_fs throw
rename_dir-bucket none a b w = refl
rename_dir-bucket (some (file _)) a b w = refl
rename_dir-bucket (some dir) a b w = ground arith

rename_at-bucket :
    (o : Option Node) (a b : List Text) (w : World) → SameBucket w (rename_at o a b w).1
unfolding rename_at throw with_world
rename_at-bucket none a b w = refl
rename_at-bucket (some (file _)) a b w = refl
rename_at-bucket (some dir) a b w = rename_dir-bucket (node w.fs b) a b w

pub rename-bucket : (a b : Text) → Keeps SameBucket (rename a b)
unfolding rename
rename-bucket a b = Keeps-bind bucket-preorder _ _ (SameFiles-bucket fs_call-SameFiles) λ _.
    Keeps-with_world _
      (λ w. rename_at-bucket (node w.fs (components a)) (components a) (components b) w)

set_or_refuse-bucket : (o : Option Fs) → Keeps SameBucket (set_or_refuse o)
unfolding set_or_refuse set_fs throw
set_or_refuse-bucket none = record { at = λ w. refl }
set_or_refuse-bucket (some fs) = record { at = λ w. refl }

write_at-bucket : (p : List Text) (b : Text) → Keeps SameBucket (write_at p b)
unfolding write_at
write_at-bucket p b = Keeps-with_world _ (λ w. (set_or_refuse-bucket (write_node p b w.fs)).at w)

written-bucket : (o : Option Text) (n : ℕ) → Keeps SameBucket (written o n)
unfolding written
written-bucket none n = Keeps-pure bucket-preorder n
written-bucket (some e) n = Keeps-throw bucket-preorder _

pub write_file-bucket : (p : Text) (r : Reader) → Keeps SameBucket (write_file p r)
unfolding write_file
write_file-bucket p r =
    let call = SameFiles-bucket fs_call-SameFiles in
    Keeps-bind bucket-preorder _ _ call λ _.
      Keeps-bind bucket-preorder _ _ (write_at-bucket (components p) []) λ _.
        Keeps-bind bucket-preorder _ _ call λ _.
          Keeps-bind bucket-preorder _ _ (write_at-bucket (components p) r.content)
            λ _. written-bucket r.failure _
