-- ===== src/World/Files/Moves.antt =====
-- What a `rename` of a directory does to the files below it.
use mathlib.Core.Path.{subst}
use reposync.Base.{
  ◌≡◌, refl, ◌∙◌, ap, sym, false, Option, none, some, List, [], ◌∷◌, ◌++◌, Text, arith, texts_eq,
  text_eq, ◌==◌, ==_self, eq_of_==, Bool-cases, Option-cases, inl, inr,
}
use reposync.Base.Outcome.{ok}
use reposync.World.Defs.{World, Fs, Node, dir, file, throw, with_world}
use reposync.World.Bind.{Returns, bind-Returns}
use reposync.World.Files.{
  strip, node, moved, move_tree, rename, rename_at, rename_dir, is_empty_dir, set_fs, fs_call,
  components,
}
use reposync.World.Files.Frame.{content, content_of, fs_call-SameFiles}
use reposync.World.Preorder.{Keeps, Keeps-bind, Keeps-with_world, SameAt-preorder}
use reposync.World.Files.Writes.{SameContent, SameFiles-content}
use reposync.World.Files.Below.{strip-append}

strip-some : (p q r : List Text) → strip p q ≡ some r → q ≡ p ++ r
unfolding strip
strip-some [] q r h = ground arith
strip-some (c ∷ p) [] r h = absurd (ground arith)
strip-some (c ∷ p) (d ∷ q) r h = elim (Bool-cases (c == d)) [
  | inl e ↦
      let rest : q ≡ p ++ r = strip-some p q r (rw (strip, e) at h) in
      let same : d ≡ c = sym (eq_of_== c d e) in λ i. same i ∷ rest i
  | inr n ↦ absurd (ground (arith, n))
]

-- What is not below a directory is none of its places.
strip-none_ne : (p q r : List Text) → strip p q ≡ none → (q == p ++ r) ≡ false
strip-none_ne p q r h = elim (Bool-cases (q == p ++ r)) [
  | inr n ↦ n
  | inl e ↦ absurd (ground (arith, h, strip-append p r, ap (strip p) (eq_of_== q (p ++ r) e)))
]

append-test : (p x y : List Text) → (p ++ x == p ++ y) ≡ (x == y)
append-test p x y = elim (Bool-cases (x == y)) [
  | inl e ↦ rw (eq_of_== x y e) (==_self (p ++ y) ∙ sym (==_self y))
  | inr n ↦ elim (Bool-cases (p ++ x == p ++ y)) [
    | inr m ↦ m ∙ sym n
    | inl e ↦
        let k = ap (strip p) (eq_of_== (p ++ x) (p ++ y) e) in
        absurd (ground (arith, n, k, strip-append p x, strip-append p y, ==_self x))
  ]
]

module _ (a b r : List Text) where
  entry_moved :
      (rest : List Text) (q : List Text) (n : Node) (fs : Fs)
      → q ≡ a ++ rest
      → node (move_tree a b fs) (b ++ r) ≡ node fs (a ++ r)
      → node ((b ++ rest, n) ∷ move_tree a b fs) (b ++ r) ≡ node ((q, n) ∷ fs) (a ++ r)
  entry_moved rest q n fs e ih = rw (e, append-test a rest r, append-test b rest r, ih) refl

  -- The files below `a` are found below `b`.
  pub node-move_tree : (fs : Fs) → node (move_tree a b fs) (b ++ r) ≡ node fs (a ++ r)
  unfolding move_tree moved
  node-move_tree [] = refl
  node-move_tree ((q, n) ∷ fs) = elim (Option-cases (strip a q)) [
    | inr (rest, e) ↦
        rw (move_tree, moved, e)
          (entry_moved rest q n fs (strip-some a q rest e) (node-move_tree fs))
    | inl e ↦ elim (Option-cases (strip b q)) [
      | inr (rest, f) ↦
          rw (move_tree, moved, e, f) (node-move_tree fs ∙ rw (strip-none_ne a q r e) refl)
      | inl f ↦
          rw (move_tree, moved, e, f)
            (rw (strip-none_ne a q r e, strip-none_ne b q r f) (node-move_tree fs))
    ]
  ]

module _ (a b q : List Text) (not_b : strip b q ≡ none) where
  dropped_ne : (rest : List Text) → (b ++ rest == q) ≡ false
  dropped_ne rest = elim (Bool-cases (b ++ rest == q)) [
    | inr n ↦ n
    | inl e ↦
        absurd (ground (arith, not_b, strip-append b rest, ap (strip b) (eq_of_== (b ++ rest) q e)))
  ]

  -- Outside of both directories nothing changes.
  pub node-move_tree_other : (fs : Fs) → strip a q ≡ none → node (move_tree a b fs) q ≡ node fs q
  unfolding move_tree moved
  node-move_tree_other [] not_a = refl
  node-move_tree_other ((p, n) ∷ fs) not_a = elim (Bool-cases (p == q)) [
    | inl same ↦
        let e = eq_of_== p q same in
        let f : strip a p ≡ none = ap (strip a) e ∙ not_a in
        let g : strip b p ≡ none = ap (strip b) e ∙ not_b in rw (move_tree, moved, f, g, same) refl
    | inr other ↦ elim (Option-cases (strip a p)) [
      | inr (rest, f) ↦
          rw (move_tree, moved, f, other, dropped_ne rest) (node-move_tree_other fs not_a)
      | inl f ↦ elim (Option-cases (strip b p)) [
        | inr (rest, g) ↦ rw (move_tree, moved, f, g, other) (node-move_tree_other fs not_a)
        | inl g ↦ rw (move_tree, moved, f, g, other) (node-move_tree_other fs not_a)
      ]
    ]
  ]

  -- Nothing is left below `a`.
  pub node-move_tree_left :
      (fs : Fs) (r : List Text) → q ≡ a ++ r → node (move_tree a b fs) q ≡ none
  unfolding move_tree moved
  node-move_tree_left [] r e = refl
  node-move_tree_left ((p, n) ∷ fs) r e = elim (Option-cases (strip a p)) [
    | inr (rest, f) ↦ rw (move_tree, moved, f, dropped_ne rest) (node-move_tree_left fs r e)
    | inl f ↦
        let other : (p == q) ≡ false =
          subst (λ z. (p == z) ≡ false) (sym e) (strip-none_ne a p r f) in
        elim (Option-cases (strip b p)) [
          | inr (rest, g) ↦ rw (move_tree, moved, f, g) (node-move_tree_left fs r e)
          | inl g ↦ rw (move_tree, moved, f, g, other) (node-move_tree_left fs r e)
        ]
  ]

rename_dir-fs :
    (o : Option Node) (a b : List Text) (w : World)
    → (rename_dir o a b w).0 ≡ ok tt
    → (rename_dir o a b w).1.fs ≡ move_tree a b w.fs
unfolding rename_dir set_fs throw
rename_dir-fs none a b w h = refl
rename_dir-fs (some (file c)) a b w h = absurd (ground arith)
rename_dir-fs (some dir) a b w h = ground arith

rename_at-fs :
    (o : Option Node) (a b : List Text) (w : World)
    → (rename_at o a b w).0 ≡ ok tt
    → (rename_at o a b w).1.fs ≡ move_tree a b w.fs
unfolding rename_at throw with_world
rename_at-fs none a b w h = absurd (ground arith)
rename_at-fs (some (file c)) a b w h = absurd (ground arith)
rename_at-fs (some dir) a b w h = rename_dir-fs (node w.fs b) a b w h

fs_call-fs : (w : World) → (fs_call w).1.fs ≡ w.fs
unfolding fs_call
fs_call-fs w = ground arith

-- A `rename` that succeeds has moved the tree.
pub rename-fs :
    (a b : Text) (w w' : World)
    → Returns (rename a b) w tt w'
    → w'.fs ≡ move_tree (components a) (components b) w.fs
unfolding rename with_world
rename-fs a b w w' h =
    let (_, _, h₁) = bind-Returns fs_call _ w w' tt h in
    let u : World = (fs_call w).1 in
    sym (λ i. (h₁ i).1.fs)
    ∙ rename_at-fs (node u.fs (components a)) (components a) (components b) u (λ i. (h₁ i).0)
    ∙ ap (move_tree (components a) (components b)) (fs_call-fs w)

rename_dir-outside :
    (o : Option Node) (a b q : List Text) (w : World)
    → strip a q ≡ none
    → strip b q ≡ none
    → content (rename_dir o a b w).1 q ≡ content w q
unfolding rename_dir set_fs throw
rename_dir-outside none a b q w f g = ap content_of (node-move_tree_other a b q g w.fs f)
rename_dir-outside (some (file c)) a b q w f g = refl
rename_dir-outside (some dir) a b q w f g = elim (Bool-cases (is_empty_dir b w.fs)) [
  | inl e ↦ rw e (ap content_of (node-move_tree_other a b q g w.fs f))
  | inr e ↦ rw e refl
]

rename_at-outside :
    (o : Option Node) (a b q : List Text) (w : World)
    → strip a q ≡ none
    → strip b q ≡ none
    → content (rename_at o a b w).1 q ≡ content w q
unfolding rename_at throw with_world
rename_at-outside none a b q w f g = refl
rename_at-outside (some (file c)) a b q w f g = refl
rename_at-outside (some dir) a b q w f g = rename_dir-outside (node w.fs b) a b q w f g

-- Whatever its outcome, a `rename` leaves the places outside of both directories alone.
pub rename-outside :
    (a b : Text) (q : List Text)
    → strip (components a) q ≡ none
    → strip (components b) q ≡ none
    → Keeps (SameContent q) (rename a b)
unfolding rename
rename-outside a b q f g =
    Keeps-bind (SameAt-preorder (λ w. content w q)) _ _ (SameFiles-content q fs_call-SameFiles) λ _.
      Keeps-with_world _
        (λ w. rename_at-outside (node w.fs (components a)) (components a) (components b) q w f g)
