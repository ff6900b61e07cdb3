-- ===== src/Sync/Manager/Kept.antt =====
-- What the parts of `sync_repo_internal` of src/sync.rs before its copies leave alone.
use mathlib.Core.Path.{subst}
use reposync.Base.{
  ◌≡◌, refl, ◌∙◌, ap, true, false, Bool-cases, inl, inr, arith, contains_text, Option, none, some,
  List, [], ◌∷◌, Text, lit, ◌==◌, text_eq,
}
use reposync.Base.Outcome.{Outcome, ok, err, panic, IoError}
use reposync.Base.Crates.{Crates}
use reposync.Config.Data.{GeneralConfig, RepositoryConfig}
use reposync.Packages.{IndexFile, Repository}
use reposync.World.{World, Io, pure, abort, continue, ◌>>=◌}
use reposync.World.Preorder.{
  IsPreorder, Keeps, Keeps-bind, Keeps-pure, Keeps-abort, Keeps-lift, Keeps-try, Keeps-unwrap,
  Keeps-with_context, Keeps-if,
}
use reposync.World.Bind.{Returns, bind-Returns, pure-Returns}
use reposync.World.Files.Frame.{SameFiles, SameFiles-preorder, open_file-SameFiles}
use reposync.State.{
  LiveRepoMetadataStore, SavedRepoMetadataStore, exists, live_store, saved_store, live_new,
  live_fetch, live_read,
}
use reposync.State.Kept.{saved_fetch-SameFiles, saved_read-SameFiles}
use reposync.Fetcher.{Fetcher}
use reposync.Debian.Fetch as Debian
use reposync.Debian.Fetch.Kept.{debian-Keeps}
use reposync.Redhat.Fetch as Redhat
use reposync.Redhat.Fetch.Kept.{redhat-Keeps}
use reposync.Sync.Manager.{
  load_current, fetch_repository, data_path, tmp_path, validate, verify_indexes, all_indexes,
}

-- The store that `LiveRepoMetadataStore::new` makes.
abbrev pub made : Text → Text → Fetcher → LiveRepoMetadataStore
made url directory fetcher = record {
  repo_base_url = url;
  tmp_directory = directory;
  fetcher = fetcher;
}

live_new-made :
    (url directory : Text) (fetcher : Fetcher) (store : LiveRepoMetadataStore) (w w' : World)
    → Returns (live_new url directory fetcher) w store w'
    → made url directory fetcher ≡ store
unfolding live_new abort
live_new-made url directory fetcher store w w' h =
    elim (Bool-cases (contains_text directory (lit "tmp"))) [
      | inl e ↦
          (let (left, _, h₁) = bind-Returns (exists directory) _ w w' store (rw e at h) in
            let (_, _, h₂) = bind-Returns _ _ _ w' store h₁ in
            (pure-Returns (made url directory fetcher) store _ w' h₂).0)
      | inr e ↦ absurd (no-value w w' store (rw e at h))
    ]
  where
    no-value :
        (w w' : World) (store : LiveRepoMetadataStore)
        → Returns {E = IoError} (abort {A = LiveRepoMetadataStore}) w store w'
        → ⊥
    no-value w w' store h =
        let e : ◌≡◌ {A = Outcome IoError LiveRepoMetadataStore} panic (ok store) = λ i. (h i).0 in
        ground arith

made_last :
    (url directory : Text) (fetcher : Fetcher) (m : LiveRepoMetadataStore → Io Repository)
    (w w' : World) (r : Repository) (s : LiveRepoMetadataStore)
    → Returns {E = IoError} {A = Repository × LiveRepoMetadataStore}
        (do store ← live_new url directory fetcher; repo ← m store; pure (repo, store))
        w
        (r, s)
        w'
    → made url directory fetcher ≡ s
made_last url directory fetcher m w w' r s h =
    let (store, new, h₁) = bind-Returns (live_new url directory fetcher) _ w w' (r, s) h in
    let (_, _, h₂) = bind-Returns (m store) _ _ w' (r, s) h₁ in
    live_new-made url directory fetcher store w _ new
    ∙ ap (λ (z : Repository × LiveRepoMetadataStore). z.1) (pure-Returns _ (r, s) _ w' h₂).0

module _ {R : World → World → Type 0} (p : IsPreorder R) where
  made-Keeps :
      {A : Type 0} (url directory : Text) (fetcher : Fetcher) (f : LiveRepoMetadataStore → Io A)
      → Keeps R (live_new url directory fetcher)
      → Keeps R (f (made url directory fetcher))
      → Keeps R (live_new url directory fetcher >>= f)
  unfolding ◌>>=◌
  made-Keeps url directory fetcher f h k = record {
    at = λ w.
        p.rel_trans w (live_new url directory fetcher w).1 _ (h.at w)
          (go w (live_new url directory fetcher w).0 refl);
  }
    where
      go :
          (w : World) (r : Outcome IoError LiveRepoMetadataStore)
          → (live_new url directory fetcher w).0 ≡ r
          → R
              (live_new url directory fetcher w).1
              (continue r f (live_new url directory fetcher w).1).1
      go w (ok store) e =
          (subst (λ s. Keeps R (f s))
              (live_new-made url directory fetcher store w _
                (λ i. (e i, (live_new url directory fetcher w).1)))
              k).at
            _
      go w (err x) e = p.rel_refl _
      go w panic e = p.rel_refl _

  module _ ⦃lib : Crates⦄ where
    -- The download keeps what its calls of the store keep.
    pub fetch_repository-Keeps :
        (general : GeneralConfig) (fetcher : Fetcher) (repo : RepositoryConfig)
        → Keeps R (live_new repo.source.endpoint (tmp_path general repo) fetcher)
        → ((path : Text)
            → Keeps R (live_fetch (made repo.source.endpoint (tmp_path general repo) fetcher) path))
        → ((path : Text)
            → Keeps R (live_read (made repo.source.endpoint (tmp_path general repo) fetcher) path))
        → Keeps R (fetch_repository general fetcher repo)
    unfolding fetch_repository Debian.fetch_repository Redhat.fetch_repository live_store
    fetch_repository-Keeps general fetcher repo new fetch read =
        let store = made repo.source.endpoint (tmp_path general repo) fetcher in
        Keeps-if (repo.source.kind == lit "debian") _ _
          (made-Keeps _ _ fetcher _ new (
            Keeps-bind p _ _
              (Keeps-with_context _ _ (debian-Keeps (live_store store) p fetch read repo false))
              λ _. Keeps-pure p _))
          (Keeps-if (repo.source.kind == lit "redhat") _ _
            (made-Keeps _ _ fetcher _ new (
              Keeps-bind p _ _
                (Keeps-with_context _ _ (redhat-Keeps (live_store store) p fetch read repo))
                λ _. Keeps-pure p _))
            (Keeps-abort p))

module _ ⦃lib : Crates⦄ where
  -- The store of a download is that of the temporary directory.
  pub fetch_repository-made :
      (general : GeneralConfig) (fetcher : Fetcher) (repo : RepositoryConfig) (w w' : World)
      (r : Repository) (s : LiveRepoMetadataStore)
      → Returns (fetch_repository general fetcher repo) w (r, s) w'
      → made repo.source.endpoint (tmp_path general repo) fetcher ≡ s
  unfolding fetch_repository Debian.fetch_repository Redhat.fetch_repository abort
  fetch_repository-made general fetcher repo w w' r s h =
      elim (Bool-cases (repo.source.kind == lit "debian")) [
        | inl debian ↦ made_last _ _ fetcher _ w w' r s (rw debian at h)
        | inr other ↦ elim (Bool-cases (repo.source.kind == lit "redhat")) [
          | inl redhat ↦ made_last _ _ fetcher _ w w' r s (rw (other, redhat) at h)
          | inr none_of ↦ absurd (no-value w w' (rw (other, none_of) at h))
        ]
      ]
    where
      no-value :
          (w w' : World)
          → Returns {E = IoError} (abort {A = Repository × LiveRepoMetadataStore}) w (r, s) w'
          → ⊥
      no-value w w' h =
          let e : ◌≡◌ {A = Outcome IoError (Repository × LiveRepoMetadataStore)} panic (ok (r, s)) =
            λ i. (h i).0 in
          ground arith

  -- The current state is only read.
  pub load_current-SameFiles :
      (general : GeneralConfig) (repo : RepositoryConfig)
      → Keeps SameFiles (load_current general repo)
  unfolding load_current Debian.load_repository Redhat.load_repository saved_store exists
  load_current-SameFiles general repo =
      let S = SameFiles-preorder in
      let store : SavedRepoMetadataStore = record { directory = data_path general repo } in
      let fetch = saved_fetch-SameFiles store in
      let read = saved_read-SameFiles store in
      Keeps-bind S _ _ (Keeps-bind S _ _ (Keeps-try _ (open_file-SameFiles _)) λ r. Keeps-pure S _)
        λ found.
          Keeps-if found _ _
            (Keeps-if (repo.source.kind == lit "debian") _ _
              (Keeps-bind S _ _
                (Keeps-with_context _ _ (debian-Keeps (saved_store store) S fetch read repo true))
                λ _. Keeps-pure S _)
              (Keeps-if (repo.source.kind == lit "redhat") _ _
                (Keeps-bind S _ _
                  (Keeps-with_context _ _ (redhat-Keeps (saved_store store) S fetch read repo))
                  λ _. Keeps-pure S _)
                (Keeps-abort S)))
            (Keeps-pure S _)

  verify_indexes-SameFiles :
      (key : Text) (indexes : List IndexFile) → Keeps SameFiles (verify_indexes key indexes)
  unfolding verify_indexes
  verify_indexes-SameFiles key [] = Keeps-pure SameFiles-preorder tt
  verify_indexes-SameFiles key (index ∷ rest) =
      Keeps-bind SameFiles-preorder _ _ (Keeps-unwrap _ (open_file-SameFiles index.file_path)) λ r.
        Keeps-bind SameFiles-preorder _ _ (Keeps-lift SameFiles-preorder _)
          λ _. verify_indexes-SameFiles key rest

  pub validate-SameFiles :
      (key : Option Text) (repo : Repository) → Keeps SameFiles (validate key repo)
  unfolding validate
  validate-SameFiles none repo = Keeps-pure SameFiles-preorder tt
  validate-SameFiles (some key) repo = verify_indexes-SameFiles key (all_indexes repo.collections)
