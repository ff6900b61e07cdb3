-- ===== src/Sync/Copy/Uploaded.antt =====
-- What `copy_internal` and `copy` leave in the destination.
use mathlib.Core.Path.{subst}
use reposync.Base.{
  ◌≡◌, refl, sym, ◌∙◌, ap, ◌≢◌, ◌⊎◌, inl, inr, true, some, List, [], ◌∷◌, Text, length,
  texts-discrete,
}
use reposync.Base.Members.{In}
use reposync.Base.Outcome.{Outcome, ok, IoError}
use reposync.Base.Crates.{Crates, Reader}
use reposync.Packages.{matches}
use reposync.World.{World, unwrap}
use reposync.World.Preorder.{
  Keeps, Keeps-bind, Keeps-pure, Keeps-unwrap, Keeps-with_context, SameAt, SameAt-preorder,
}
use reposync.World.Bind.{Returns, bind-Returns, pure-Returns, with_context-Returns}
use reposync.World.Files.{create_dir_all}
use reposync.World.Files.Frame.{create_dir_all-SameFiles}
use reposync.Fetcher.{Fetcher}
use reposync.Destination.{Destination, IsLawful}
use reposync.Sync.Diff.{CopyOperation}
use reposync.Sync.Files.{FileSpec, operation_file}
use reposync.Sync.Copy.{copy_one, copy_loop, copy_internal, copy}
use reposync.Sync.Copy.Steps.{IsQuiet, still, copy_one-SameAt, copy_one-IsChecked}

module _ ⦃lib : Crates⦄ (d : Destination) (l : IsLawful d) where
  -- The destination serves a file with the hash and the size that are told of it.
  abbrev pub Holds : World → FileSpec → Type 0
  Holds w f =
      (r : Reader) × (matches f.hash r ≡ ok true)
      × (length r.content ≡ f.size)
      × (l.view w (l.locate f.path) ≡ some r.content)

  -- The operations on the place of a file want the same content there.
  abbrev pub Agrees : FileSpec → List CopyOperation → Type 0
  Agrees f ops =
      (o : CopyOperation)
      → In o ops
      → l.locate o.path ≡ l.locate f.path
      → (o.hash ≡ f.hash) × (o.size ≡ f.size)

  -- No operation is on a place.
  abbrev pub Avoids : List Text → List CopyOperation → Type 0
  Avoids q ops = (o : CopyOperation) → In o ops → l.locate o.path ≢ q

  module _ (endpoint : Text) (fetcher : Fetcher) (quiet : IsQuiet fetcher) where
    copy_loop-SameAt :
        (q : List Text) (ops : List CopyOperation)
        → Avoids q ops
        → Keeps (SameAt (λ w. l.view w q)) (copy_loop endpoint fetcher d ops)
    unfolding copy_loop
    copy_loop-SameAt q [] a = Keeps-pure (SameAt-preorder (λ w. l.view w q)) []
    copy_loop-SameAt q (o ∷ ops) a =
        let P = SameAt-preorder (λ w. l.view w q) in
        Keeps-bind P _ _ (copy_one-SameAt d l endpoint fetcher quiet o q (a o (inl refl))) λ _.
          Keeps-bind P _ _ (copy_loop-SameAt q ops (λ o' m. a o' (inr m))) λ paths. Keeps-pure P _

    -- One operation: it stores its own file, and keeps the others.
    copy_one-Holds :
        (o : CopyOperation) (f : FileSpec) (w w' : World)
        → Returns (copy_one endpoint fetcher d o) w tt w'
        → (l.locate o.path ≡ l.locate f.path → (o.hash ≡ f.hash) × (o.size ≡ f.size))
        → Holds w f ⊎ (operation_file o ≡ f)
        → Holds w' f
    copy_one-Holds o f w w' h same before =
        elim (texts-discrete (l.locate o.path) (l.locate f.path)) [
          | yes e ↦
              (let (r, c, v) = copy_one-IsChecked d l endpoint fetcher quiet o w w' h in
                let (hash, size) = same e in
                (
                  r,
                  ap (λ z. matches z r) (sym hash) ∙ c.hashed,
                  c.sized ∙ size,
                  ap (l.view w') (sym e) ∙ v,
                ))
          | no n ↦ elim before [
            | inr e ↦ absurd (n (ap (λ (z : FileSpec). l.locate z.path) e))
            | inl (r, c, s, v) ↦ (
              r,
              c,
              s,
              ap (λ (z : Outcome IoError (Unit {0}) × World). l.view z.1 (l.locate f.path)) (sym h)
                  ∙ (copy_one-SameAt d l endpoint fetcher quiet o (l.locate f.path) n).at w
                  ∙ v,
            )
          ]
        ]

    -- The file is there after the first operation, or one of the others is on it.
    earlier_or_later :
        (o : CopyOperation) (ops : List CopyOperation) (f : FileSpec) (w u : World)
        → Holds w f ⊎ ((x : CopyOperation) × In x (o ∷ ops) × (operation_file x ≡ f))
        → (Holds w f ⊎ (operation_file o ≡ f) → Holds u f)
        → Holds u f ⊎ ((x : CopyOperation) × In x ops × (operation_file x ≡ f))
    earlier_or_later o ops f w u (inl b) first = inl (first (inl b))
    earlier_or_later o ops f w u (inr (x, inl e, p)) first =
        inl (first (inr (ap operation_file e ∙ p)))
    earlier_or_later o ops f w u (inr (x, inr m, p)) first = inr (x, m, p)

    -- The directory for temporary files changes nothing that is served.
    made :
        (tmp_path : Text) (f : FileSpec) (w : World) (ops : List CopyOperation)
        → Holds w f ⊎ ((x : CopyOperation) × In x ops × (operation_file x ≡ f))
        → Holds (unwrap {F = IoError} (create_dir_all tmp_path) w).1 f
          ⊎ ((x : CopyOperation) × In x ops × (operation_file x ≡ f))
    made tmp_path f w ops (inr b) = inr b
    made tmp_path f w ops (inl (r, c, s, v)) = inl (
      r,
      c,
      s,
      (still d l (l.locate f.path)
              (Keeps-unwrap {F = IoError} _ (create_dir_all-SameFiles tmp_path))).at
            w
          ∙ v,
    )

    copy_loop-Holds :
        (ops : List CopyOperation) (f : FileSpec) (w w' : World) (paths : List Text)
        → Returns (copy_loop endpoint fetcher d ops) w paths w'
        → Agrees f ops
        → Holds w f ⊎ ((o : CopyOperation) × In o ops × (operation_file o ≡ f))
        → Holds w' f
    unfolding copy_loop
    copy_loop-Holds [] f w w' paths h a (inl b) =
        subst (λ z. Holds z f) (pure-Returns [] paths w w' h).1 b
    copy_loop-Holds [] f w w' paths h a (inr (o, m, e)) = absurd m
    copy_loop-Holds (o ∷ ops) f w w' paths h a b =
        let u : World = (copy_one endpoint fetcher d o w).1 in
        let v : World = (copy_loop endpoint fetcher d ops u).1 in
        let (_, h₁, h₂) = bind-Returns (copy_one endpoint fetcher d o) _ w w' paths h in
        let (rest, h₃, h₄) = bind-Returns (copy_loop endpoint fetcher d ops) _ u w' paths h₂ in
        let first : Holds w f ⊎ (operation_file o ≡ f) → Holds u f =
          copy_one-Holds o f w u h₁ (a o (inl refl)) in
        subst (λ z. Holds z f) (pure-Returns _ paths v w' h₄).1
          (copy_loop-Holds ops f u v rest h₃ (λ o' m. a o' (inr m))
            (earlier_or_later o ops f w u b first))

    -- `copy_internal`, and so `copy`, leave another place alone, whatever the outcome.
    pub copy-SameAt :
        (tmp_path : Text) (q : List Text) (ops : List CopyOperation)
        → Avoids q ops
        → Keeps (SameAt (λ w. l.view w q)) (copy tmp_path endpoint fetcher d ops)
    unfolding copy copy_internal
    copy-SameAt tmp_path q ops a = Keeps-with_context _ _ (
        Keeps-bind (SameAt-preorder (λ w. l.view w q)) _ _
          (still d l q (Keeps-unwrap _ (create_dir_all-SameFiles tmp_path)))
          λ _. copy_loop-SameAt q ops a)

    -- A copy that succeeds stores the file of each operation, after its checks, and keeps every other
    -- file, if the operations on one place agree.
    pub copy-Holds :
        (tmp_path : Text) (ops : List CopyOperation) (f : FileSpec) (w w' : World)
        (paths : List Text)
        → Returns (copy tmp_path endpoint fetcher d ops) w paths w'
        → Agrees f ops
        → Holds w f ⊎ ((o : CopyOperation) × In o ops × (operation_file o ≡ f))
        → Holds w' f
    unfolding copy copy_internal
    copy-Holds tmp_path ops f w w' paths h a b =
        let h₀ =
          with_context-Returns _ (copy_internal tmp_path endpoint fetcher d ops) w w' paths h in
        let u : World = (unwrap {F = IoError} (create_dir_all tmp_path) w).1 in
        let (_, _, h₁) =
          bind-Returns (unwrap {F = IoError} (create_dir_all tmp_path)) _ w w' paths h₀ in
        copy_loop-Holds ops f u w' paths h₁ a (made tmp_path f w ops b)
