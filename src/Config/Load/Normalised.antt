-- ===== src/Config/Load/Normalised.antt =====
-- What the normalisation of the slashes in `load_config` of src/config.rs makes of a configuration.
use mathlib.Core.List.{reverse, reverse-cons, reverse-reverse}
use mathlib.Core.Option
use reposync.Base.{
  ℕ, ◌≡◌, ◌≢◌, refl, sym, ◌∙◌, ap, true, false, Bool-cases, inl, inr, ◌⊎◌, Option, none, some, List,
  [], ◌∷◌, ◌++◌, map, Text, lit, starts_with, text_eq, arith,
}
use reposync.Config.Data.{S3Config, LocalConfig, RepositoryConfig}
use reposync.Config.Load.{
  remove_initial_slash, remove_trailing_slash, normalize_s3, normalize_local, normalize,
}

-- The second text is the first one without the slash at its end, if it has one.
abbrev pub IsTrimmed : Text → Text → Type 0
IsTrimmed s t = (s ≡ t ++ 47 ∷ []) ⊎ ((s ≡ t) × ((u : Text) → s ≢ u ++ 47 ∷ []))

-- The second text is the first one without the slash at its start, if it has one.
abbrev pub IsStripped : Text → Text → Type 0
IsStripped s t = (s ≡ 47 ∷ t) ⊎ ((s ≡ t) × ((u : Text) → s ≢ 47 ∷ u))

abbrev pub IsTrimmedOption : Option Text → Option Text → Type 0
IsTrimmedOption none none = Unit
IsTrimmedOption (some s) (some t) = IsTrimmed s t
IsTrimmedOption none (some t) = ⊥
IsTrimmedOption (some s) none = ⊥

-- A bucket, with other endpoints and another path.
pub record IsBucketOf (s s' : S3Config) : Type 0 where
  pub same : s' ≡ record s {
    s3_endpoint = s'.s3_endpoint;
    path = s'.path;
    cloudfront_endpoint = s'.cloudfront_endpoint;
  }
  pub s3_endpoint : IsTrimmed s.s3_endpoint s'.s3_endpoint
  pub path : (p : Text) × IsTrimmed s.path p × IsStripped p s'.path
  pub cloudfront_endpoint : IsTrimmedOption s.cloudfront_endpoint s'.cloudfront_endpoint

abbrev pub IsS3Of : Option S3Config → Option S3Config → Type 0
IsS3Of none none = Unit
IsS3Of (some s) (some s') = IsBucketOf s s'
IsS3Of none (some s') = ⊥
IsS3Of (some s) none = ⊥

abbrev pub IsLocalOf : Option LocalConfig → Option LocalConfig → Type 0
IsLocalOf none none = Unit
IsLocalOf (some l) (some l') = IsTrimmed l.path l'.path
IsLocalOf none (some l') = ⊥
IsLocalOf (some l) none = ⊥

-- One repository and what it becomes.
pub record IsNormalised (r r' : RepositoryConfig) : Type 0 where
  pub name : r'.name ≡ r.name
  pub source : r'.source ≡ record r.source { endpoint = r'.source.endpoint }
  pub endpoint : IsTrimmed r.source.endpoint r'.source.endpoint
  pub s3 : IsS3Of r.destination.s3 r'.destination.s3
  pub local : IsLocalOf r.destination.local r'.destination.local
  pub versions : r'.versions ≡ r.versions

abbrev pub AreNormalised : List RepositoryConfig → List RepositoryConfig → Type 0
AreNormalised [] [] = Unit
AreNormalised (r ∷ rs) (r' ∷ rs') = IsNormalised r r' × AreNormalised rs rs'
AreNormalised [] (r' ∷ rs') = ⊥
AreNormalised (r ∷ rs) [] = ⊥

slash_of : (c : ℕ) (s : Text) → starts_with (c ∷ s) (lit "/") ≡ true → c ≡ 47
unfolding starts_with lit
slash_of c s h = ground arith

not_slash :
    (c : ℕ) (s u : Text)
    → starts_with (c ∷ s) (lit "/") ≡ false
    → ◌≡◌ {A = Text} (c ∷ s) (47 ∷ u)
    → ⊥
unfolding starts_with lit
not_slash c s u h e = ground arith

remove_initial_slash-IsStripped : (s : Text) → IsStripped s (remove_initial_slash s)
unfolding remove_initial_slash starts_with lit
remove_initial_slash-IsStripped [] = inr (refl, λ u e. cc)
remove_initial_slash-IsStripped (c ∷ s) = elim (Bool-cases (starts_with (c ∷ s) (lit "/"))) [
  | inl h ↦ rw h (inl (ap (λ z. z ∷ s) (slash_of c s h)))
  | inr h ↦ rw h (inr (refl, λ u e. not_slash c s u h e))
]

reverse-last : (u : Text) → reverse (u ++ 47 ∷ []) ≡ 47 ∷ reverse u
reverse-last u =
    sym (ap reverse (reverse-cons 47 (reverse u) ∙ ap (λ z. z ++ 47 ∷ []) (reverse-reverse u)))
    ∙ reverse-reverse (47 ∷ reverse u)

reversed-IsTrimmed : (s t : Text) → IsStripped (reverse s) t → IsTrimmed s (reverse t)
reversed-IsTrimmed s t (inl e) = inl (sym (reverse-reverse s) ∙ ap reverse e ∙ reverse-cons 47 t)
reversed-IsTrimmed s t (inr (e, n)) =
    inr
      (sym (reverse-reverse s) ∙ ap reverse e, λ u h. n (reverse u) (ap reverse h ∙ reverse-last u))

remove_trailing_slash-IsTrimmed : (s : Text) → IsTrimmed s (remove_trailing_slash s)
unfolding remove_trailing_slash
remove_trailing_slash-IsTrimmed s =
    reversed-IsTrimmed s (remove_initial_slash (reverse s))
      (remove_initial_slash-IsStripped (reverse s))

trimmed_option : (o : Option Text) → IsTrimmedOption o (Option.map remove_trailing_slash o)
trimmed_option none = tt
trimmed_option (some s) = remove_trailing_slash-IsTrimmed s

normalize_s3-IsS3Of : (o : Option S3Config) → IsS3Of o (Option.map normalize_s3 o)
unfolding normalize_s3
normalize_s3-IsS3Of none = tt
normalize_s3-IsS3Of (some s) = record {
  same = refl;
  s3_endpoint = remove_trailing_slash-IsTrimmed s.s3_endpoint;
  path = (
    remove_trailing_slash s.path,
    remove_trailing_slash-IsTrimmed s.path,
    remove_initial_slash-IsStripped (remove_trailing_slash s.path),
  );
  cloudfront_endpoint = trimmed_option s.cloudfront_endpoint;
}

normalize_local-IsLocalOf : (o : Option LocalConfig) → IsLocalOf o (Option.map normalize_local o)
unfolding normalize_local
normalize_local-IsLocalOf none = tt
normalize_local-IsLocalOf (some l) = remove_trailing_slash-IsTrimmed l.path

pub normalize-AreNormalised : (rs : List RepositoryConfig) → AreNormalised rs (map normalize rs)
unfolding normalize
normalize-AreNormalised [] = tt
normalize-AreNormalised (r ∷ rs) = (
  record {
    name = refl;
    source = refl;
    endpoint = remove_trailing_slash-IsTrimmed r.source.endpoint;
    s3 = normalize_s3-IsS3Of r.destination.s3;
    local = normalize_local-IsLocalOf r.destination.local;
    versions = refl;
  },
  normalize-AreNormalised rs,
)
