-- ===== src/State/Replaced.antt =====
-- What a replacement of src/state.rs that succeeds leaves.
use reposync.Base.{
  ◌≡◌, refl, sym, ap, ◌∙◌, Bool, true, false, none, List, ◌++◌, Text, lit, if◌then◌else◌, arith,
}
use reposync.Base.Outcome.{Outcome, IoError}
use reposync.World.{World, Io, pure}
use reposync.World.Preorder.{Keeps, Keeps-bind, Keeps-pure, Keeps-if, SameAt-preorder}
use reposync.World.Bind.{Returns, bind-Returns, pure-Returns}
use reposync.World.Files.{components, node, strip, rename, remove_dir_all, move_tree}
use reposync.World.Files.Frame.{content, content_of}
use reposync.World.Files.Writes.{SameContent}
use reposync.World.Files.Below.{remove_dir_all-outside}
use reposync.World.Files.Moves.{
  rename-outside, node-move_tree, node-move_tree_other, node-move_tree_left, rename-fs,
}
use reposync.State.{LiveRepoMetadataStore, exists, replace}
use reposync.State.Outside.{exists-outside}

-- The stored state, the place where it is set aside, and the download are three directories of
-- which none is below another one.
pub record AreApart (path aside directory : List Text) : Type 0 where
  pub directory_path : (r : List Text) → strip path (directory ++ r) ≡ none
  pub directory_aside : (r : List Text) → strip aside (directory ++ r) ≡ none
  pub path_aside : (r : List Text) → strip aside (path ++ r) ≡ none

abbrev moved_if : Bool → Text → Text → Io (Unit {0})
moved_if b from to = if b then rename from to else pure tt

abbrev removed_if : Bool → Text → Io (Unit {0})
removed_if b p = if b then remove_dir_all p else pure tt

-- A replacement, whatever its outcome, leaves the places outside of the three directories alone.
pub replace-outside :
    (store : LiveRepoMetadataStore) (path : Text) (q : List Text)
    → strip (components path) q ≡ none
    → strip (components (path ++ lit "__")) q ≡ none
    → strip (components store.tmp_directory) q ≡ none
    → Keeps (SameContent q) (replace store path)
unfolding replace
replace-outside store path q a b c =
    let P = SameAt-preorder (λ w. content w q) in
    Keeps-bind P _ _ (exists-outside q path) λ existed.
      Keeps-bind P _ _
        (Keeps-if existed _ _ (rename-outside path (path ++ lit "__") q a b) (Keeps-pure P tt))
        λ _. Keeps-bind P _ _ (rename-outside store.tmp_directory path q c a) λ _.
          Keeps-if existed _ _ (remove_dir_all-outside (path ++ lit "__") q (ground (arith, b)))
            (Keeps-pure P tt)

moved_if-other :
    (b : Bool) (from to : Text) (q : List Text) (w w' : World)
    → strip (components from) q ≡ none
    → strip (components to) q ≡ none
    → Returns (moved_if b from to) w tt w'
    → content w' q ≡ content w q
moved_if-other true from to q w w' f t h =
    ap (λ z. content_of (node z q)) (rename-fs from to w w' h)
    ∙ ap content_of (node-move_tree_other (components from) (components to) q t w.fs f)
moved_if-other false from to q w w' f t h =
    ap (λ z. content z q) (sym (pure-Returns tt tt w w' h).1)

removed_if-other :
    (b : Bool) (p : Text) (q : List Text) (w w' : World)
    → strip (components p) q ≡ none
    → Returns (removed_if b p) w tt w'
    → content w' q ≡ content w q
removed_if-other true p q w w' f h =
    ap (λ (z : Outcome IoError (Unit {0}) × World). content z.1 q) (sym h)
    ∙ (remove_dir_all-outside p q (ground (arith, f))).at w
removed_if-other false p q w w' f h = ap (λ z. content z q) (sym (pure-Returns tt tt w w' h).1)

module _ (store : LiveRepoMetadataStore) (path : Text) where
  abbrev place : List Text
  place = components path

  abbrev directory : List Text
  directory = components store.tmp_directory

  -- A replacement that succeeds has moved the download to the place of the stored state: each file
  -- of the download is found there, no other file is, and the temporary directory holds none.
  pub replace-moved :
      (w w' : World) (r : List Text)
      → AreApart place (components (path ++ lit "__")) directory
      → Returns (replace store path) w tt w'
      → (content w' (place ++ r) ≡ content w (directory ++ r))
        × (content w' (directory ++ r) ≡ none)
  unfolding replace
  replace-moved w w' r apart h =
      let aside = path ++ lit "__" in
      let (existed, _, h₁) = bind-Returns (exists path) _ w w' tt h in
      let w₁ : World = (exists path w).1 in
      let (_, set_aside, h₂) = bind-Returns (moved_if existed path aside) _ w₁ w' tt h₁ in
      let w₂ : World = (moved_if existed path aside w₁).1 in
      let (_, renamed, last) = bind-Returns (rename store.tmp_directory path) _ w₂ w' tt h₂ in
      let w₃ : World = (rename store.tmp_directory path w₂).1 in
      let fs₃ : w₃.fs ≡ move_tree directory place w₂.fs =
        rename-fs store.tmp_directory path w₂ w₃ renamed in
      let q = directory ++ r in
      let kept : content w₂ q ≡ content w q =
        moved_if-other existed path aside q w₁ w₂ (apart.directory_path r) (apart.directory_aside r)
          set_aside
        ∙ (exists-outside q path).at w in
      (
        removed_if-other existed aside (place ++ r) w₃ w' (apart.path_aside r) last
            ∙ ap (λ z. content_of (node z (place ++ r))) fs₃
            ∙ ap content_of (node-move_tree directory place r w₂.fs)
            ∙ kept,
        removed_if-other existed aside q w₃ w' (apart.directory_aside r) last
            ∙ ap (λ z. content_of (node z q)) fs₃
            ∙ ap content_of
                (node-move_tree_left directory place q (apart.directory_path r) w₂.fs r refl),
      )
