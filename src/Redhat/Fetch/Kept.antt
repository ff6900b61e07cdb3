-- ===== src/Redhat/Fetch/Kept.antt =====
-- What the loop of src/redhat.rs leaves alone, if the calls of the store do.
use reposync.Base.{Option, none, some, List, [], ◌∷◌, Text, lit, ◌==◌, text_eq}
use reposync.Base.Crates.{Crates, Reader}
use reposync.Config.Data.{RepositoryConfig}
use reposync.World.{World}
use reposync.World.Preorder.{
  IsPreorder, Keeps, Keeps-bind, Keeps-pure, Keeps-lift, Keeps-unwrap, Keeps-with_context, Keeps-if,
}
use reposync.State.{MetadataStore}
use reposync.Utils.Kept.{add_optional_index-Keeps, expect-Keeps}
use reposync.Redhat.Xml.{RepomodData}
use reposync.Redhat.Fetch.{
  repomod_signature, entry_packages, entry_loop, fetch_repository_internal, repo_mod_path,
}

module _ ⦃lib : Crates⦄ (state : MetadataStore) {R : World → World → Type 0} (p : IsPreorder R)
    (fetch : (path : Text) → Keeps R (state.fetch path))
    (read : (path : Text) → Keeps R (state.read path)) where
  repomod_signature-Keeps : (o : Option Reader) → Keeps R (repomod_signature state o)
  unfolding repomod_signature
  repomod_signature-Keeps none = Keeps-pure p _
  repomod_signature-Keeps (some r) = Keeps-bind p _ _ (Keeps-lift p _) λ _. Keeps-pure p _

  entry_packages-Keeps : (entry : RepomodData) (r : Reader) → Keeps R (entry_packages state entry r)
  unfolding entry_packages
  entry_packages-Keeps entry r =
      Keeps-if (entry.type_ == lit "primary") _ _ (Keeps-with_context _ _ (Keeps-lift p _))
        (Keeps-pure p _)

  entry_loop-Keeps : (entries : List RepomodData) → Keeps R (entry_loop state entries)
  unfolding entry_loop
  entry_loop-Keeps [] = Keeps-pure p _
  entry_loop-Keeps (entry ∷ rest) =
      Keeps-bind p _ _ (Keeps-unwrap _ (fetch entry.location)) λ found.
        Keeps-bind p _ _ (entry_packages-Keeps entry found.1)
          λ packages. Keeps-bind p _ _ (entry_loop-Keeps rest) λ _. Keeps-pure p _

  pub redhat-Keeps : (config : RepositoryConfig) → Keeps R (fetch_repository_internal state config)
  unfolding fetch_repository_internal
  redhat-Keeps config = Keeps-bind p _ _ (Keeps-with_context _ _ (fetch repo_mod_path)) λ found.
      Keeps-bind p _ _ (Keeps-with_context _ _ (Keeps-lift p _)) λ entries.
        Keeps-bind p _ _ (add_optional_index-Keeps state p fetch read _ _ _) λ a.
          Keeps-bind p _ _ (read repo_mod_path) λ again.
            Keeps-bind p _ _ (expect-Keeps p again) λ stored.
              Keeps-bind p _ _ (repomod_signature-Keeps a.0) λ signature.
                Keeps-bind p _ _ (Keeps-lift p _)
                  λ hash. Keeps-bind p _ _ (entry_loop-Keeps entries) λ _. Keeps-pure p _
