-- ===== src/World/Files/Writes.antt =====
-- What is written to a file of the file system, and what is left alone.
use reposync.Base.{
  ℕ, ◌≡◌, refl, ◌∙◌, ap, sym, false, Option, none, some, List, [], ◌∷◌, Text, arith, texts_eq,
  ==_self, ◌==◌, if◌then◌else◌,
}
use reposync.Base.Outcome.{Outcome, ok, IoError}
use reposync.Base.Crates.{Reader}
use reposync.World.Defs.{World, Fs, Node, dir, file, Exec, throw, with_world}
use reposync.World.Preorder.{
  Keeps, Keeps-bind, Keeps-pure, Keeps-throw, Keeps-with_world, SameAt, SameAt-preorder,
}
use reposync.World.Bind.{Returns, bind-Returns}
use reposync.World.Files.{
  written, node, drop_node, components, fs_call, set_or_refuse, write_node, write_at, write_file,
  remove_file, remove_file_at, set_fs,
}
use reposync.World.Files.Frame.{content, content_of, SameFiles, fs_call-SameFiles}

node-drop_node :
    (p q : List Text) (fs : Fs) → node (drop_node p fs) q ≡ (if p == q then none else node fs q)
unfolding drop_node
node-drop_node p q [] = ground arith
node-drop_node p q ((r, n) ∷ fs) = ground (arith, node-drop_node p q fs)

write_node-content :
    (p q : List Text) (b : Text) (fs fs' : Fs)
    → write_node p b fs ≡ some fs'
    → content_of (node fs' q) ≡ (if p == q then some b else content_of (node fs q))
unfolding write_node
write_node-content p q b fs fs' h = ground arith

-- The content of one place, as a relation.
abbrev pub SameContent : List Text → World → World → Type 0
SameContent q = SameAt (λ w. content w q)

pub SameFiles-content :
    {E A : Type 0} (q : List Text) {m : Exec E A} → Keeps SameFiles m → Keeps (SameContent q) m
SameFiles-content q h = record { at = λ w. (h.at w).contents q }

set_written :
    (p q : List Text) (b : Text) (w : World) (o : Option Fs)
    → write_node p b w.fs ≡ o
    → (p == q) ≡ false
    → content (set_or_refuse o w).1 q ≡ content w q
unfolding set_or_refuse set_fs throw
set_written p q b w none e n = refl
set_written p q b w (some fs) e n = write_node-content p q b w.fs fs e ∙ ground arith

write_at-ne : (p q : List Text) (b : Text) → (p == q) ≡ false → Keeps (SameContent q) (write_at p b)
unfolding write_at
write_at-ne p q b n = Keeps-with_world _ (λ w. set_written p q b w (write_node p b w.fs) refl n)

set_there :
    (p : List Text) (b : Text) (w : World) (o : Option Fs)
    → write_node p b w.fs ≡ o
    → (set_or_refuse o w).0 ≡ ok tt
    → content (set_or_refuse o w).1 p ≡ some b
unfolding set_or_refuse set_fs throw
set_there p b w none e h = absurd (ground arith)
set_there p b w (some fs) e h = write_node-content p p b w.fs fs e ∙ ground (arith, ==_self p)

write_at-ok :
    (p : List Text) (b : Text) (w : World)
    → (write_at p b w).0 ≡ ok tt
    → content (write_at p b w).1 p ≡ some b
unfolding write_at with_world
write_at-ok p b w h = set_there p b w (write_node p b w.fs) refl h

written-SameContent :
    (q : List Text) (o : Option Text) (n : ℕ) → Keeps (SameContent q) (written o n)
unfolding written
written-SameContent q none n = Keeps-pure (SameAt-preorder (λ w. content w q)) n
written-SameContent q (some e) n = Keeps-throw (SameAt-preorder (λ w. content w q)) _

-- A write leaves the other places alone.
pub write_file-ne :
    (p : Text) (q : List Text) (r : Reader)
    → (components p == q) ≡ false
    → Keeps (SameContent q) (write_file p r)
unfolding write_file
write_file-ne p q r n =
    let P = SameAt-preorder (λ w. content w q) in
    let call = SameFiles-content q fs_call-SameFiles in
    Keeps-bind P _ _ call λ _. Keeps-bind P _ _ (write_at-ne (components p) q [] n) λ _.
      Keeps-bind P _ _ call λ _.
        Keeps-bind P _ _ (write_at-ne (components p) q r.content n)
          λ _. written-SameContent q r.failure _

-- A write that succeeds has stored the content.
pub write_file-ok :
    (p : Text) (r : Reader) (w w' : World) (n : ℕ)
    → Returns (write_file p r) w n w'
    → content w' (components p) ≡ some r.content
unfolding write_file
write_file-ok p r w w' n h =
    let q = components p in
    let (_, _, h₁) = bind-Returns fs_call _ w w' n h in
    let (_, _, h₂) = bind-Returns (write_at q []) _ _ w' n h₁ in
    let (_, _, h₃) = bind-Returns fs_call _ _ w' n h₂ in
    let (_, e, h₄) = bind-Returns (write_at q r.content) _ _ w' n h₃ in
    ap (λ (z : Outcome IoError ℕ × World). content z.1 q) (sym h₄)
    ∙ (written-SameContent q r.failure _).at _
    ∙ write_at-ok q r.content _ (λ i. (e i).0)

remove_file_at-ne :
    (o : Option Node) (p q : List Text) (w : World)
    → (p == q) ≡ false
    → content (remove_file_at o p w).1 q ≡ content w q
unfolding remove_file_at set_fs throw with_world
remove_file_at-ne none p q w n = refl
remove_file_at-ne (some dir) p q w n = refl
remove_file_at-ne (some (file b)) p q w n = ap content_of (node-drop_node p q w.fs ∙ ground arith)

-- A removal leaves the other places alone.
pub remove_file-ne :
    (p : Text) (q : List Text) → (components p == q) ≡ false → Keeps (SameContent q) (remove_file p)
unfolding remove_file
remove_file-ne p q n =
    Keeps-bind (SameAt-preorder (λ w. content w q)) _ _ (SameFiles-content q fs_call-SameFiles) λ _.
      Keeps-with_world _ (λ w. remove_file_at-ne (node w.fs (components p)) (components p) q w n)

remove_file_at-ok :
    (o : Option Node) (p : List Text) (w : World)
    → (remove_file_at o p w).0 ≡ ok tt
    → content (remove_file_at o p w).1 p ≡ none
unfolding remove_file_at set_fs throw with_world
remove_file_at-ok none p w h = absurd (ground arith)
remove_file_at-ok (some dir) p w h = absurd (ground arith)
remove_file_at-ok (some (file b)) p w h =
    let gone : node (drop_node p w.fs) p ≡ none =
      ground (arith, node-drop_node p p w.fs, ==_self p) in
    ap content_of gone

-- A removal that succeeds leaves no file at its place.
pub remove_file-ok :
    (p : Text) (w : World)
    → (remove_file p w).0 ≡ ok tt
    → content (remove_file p w).1 (components p) ≡ none
unfolding remove_file with_world
remove_file-ok p w h =
    let (_, _, h₁) = bind-Returns fs_call _ w _ tt (λ i. (h i, (remove_file p w).1)) in
    let u : World = (fs_call w).1 in
    ap (λ (z : Outcome IoError (Unit {0}) × World). content z.1 (components p)) (sym h₁)
    ∙ remove_file_at-ok (node u.fs (components p)) (components p) u (λ i. (h₁ i).0)
