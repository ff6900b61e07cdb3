-- ===== src/Config/Load/Verified.antt =====
-- What a configuration satisfies that `load_config` of src/config.rs accepts.
use mathlib.Core.Path.{subst}
use reposync.Base.{
  ◌≡◌, refl, sym, ap, Bool, true, false, not, ◌&&◌, ◌||◌, Option, none, some, List, [], ◌∷◌, ◌++◌,
  map, Text, lit, starts_with, contains, contains-append, is_some, ◌==◌, text_eq, arith, All,
  IsNodup,
}
use reposync.Base.Outcome.{Outcome, ok, err}
use reposync.Base.Crates.{Crates}
use reposync.World.{World, throw}
use reposync.World.Bind.{Returns, bind-Returns, pure-Returns}
use reposync.Config.Data.{LocalConfig, RepositoryConfig, Config}
use reposync.Config.Load.Normalised.{AreNormalised, normalize-AreNormalised}
use reposync.Config.Load.{
  require, normalize, verify_one, verify_loop, verify_s3, verify_local, check_config,
}

-- A local destination is an absolute path.
abbrev pub IsAbsolute : Option LocalConfig → Type 0
IsAbsolute none = Unit
IsAbsolute (some l) = starts_with l.path (lit "/") ≡ true

-- One repository that was verified, behind others with the given names.
pub record IsVerified (used_names : List Text) (r : RepositoryConfig) : Type 0 where
  pub not_reserved : (r.name == lit "all") ≡ false
  pub not_used : contains used_names r.name ≡ false
  pub known_kind : (r.source.kind == lit "debian" || r.source.kind == lit "redhat") ≡ true
  pub one_destination : is_some r.destination.s3 ≡ not (is_some r.destination.local)
  pub absolute : IsAbsolute r.destination.local

require-Returns :
    (b : Bool) (message : Text) (w w' : World) → Returns (require b message) w tt w' → b ≡ true
unfolding require throw
require-Returns true message w w' h = refl
require-Returns false message w w' h =
    absurd (
      let e : ◌≡◌ {A = Outcome Text (Unit {0})} (err message) (ok tt) = λ i. (h i).0 in
      ground arith)

not-true : (b : Bool) → not b ≡ true → b ≡ false
not-true true h = absurd (ground arith)
not-true false h = refl

exactly_one : (a b : Bool) → not (a && b) ≡ true → (a || b) ≡ true → a ≡ not b
exactly_one true true h k = absurd (ground arith)
exactly_one true false h k = refl
exactly_one false true h k = refl
exactly_one false false h k = absurd (ground arith)

module _ ⦃lib : Crates⦄ where
  verify_local-IsAbsolute :
      (l : Option LocalConfig) (w w' : World) → Returns (verify_local l) w tt w' → IsAbsolute l
  unfolding verify_local
  verify_local-IsAbsolute none w w' h = tt
  verify_local-IsAbsolute (some l) w w' h = require-Returns _ _ w w' h

  verify_one-IsVerified :
      (used_names : List Text) (r : RepositoryConfig) (w w' : World)
      → Returns (verify_one used_names r) w tt w'
      → IsVerified used_names r
  unfolding verify_one
  verify_one-IsVerified used_names r w w' h₀ =
      let (_, a, h₁) = bind-Returns (require (not (r.name == lit "all")) _) _ w w' tt h₀ in
      let (_, b, h₂) = bind-Returns (require (not (contains used_names r.name)) _) _ _ w' tt h₁ in
      let (_, c, h₃) =
        bind-Returns (require (r.source.kind == lit "debian" || r.source.kind == lit "redhat") _) _
          _ w' tt h₂ in
      let (_, _, h₄) = bind-Returns _ _ _ w' tt h₃ in
      let (_, _, h₅) = bind-Returns _ _ _ w' tt h₄ in
      let (_, _, h₆) = bind-Returns _ _ _ w' tt h₅ in
      let (_, _, h₇) = bind-Returns _ _ _ w' tt h₆ in
      let (_, d, h₈) =
        bind-Returns (require (not (is_some r.destination.s3 && is_some r.destination.local)) _) _ _
          w' tt h₇ in
      let (_, e, h₉) =
        bind-Returns (require (is_some r.destination.s3 || is_some r.destination.local) _) _ _ w' tt
          h₈ in
      let (_, _, f) = bind-Returns (verify_s3 r.destination.s3) _ _ w' tt h₉ in
      record {
        not_reserved = not-true _ (require-Returns _ _ _ _ a);
        not_used = not-true _ (require-Returns _ _ _ _ b);
        known_kind = require-Returns _ _ _ _ c;
        one_destination = exactly_one _ _ (require-Returns _ _ _ _ d) (require-Returns _ _ _ _ e);
        absolute = verify_local-IsAbsolute r.destination.local _ w' f;
      }

abbrev names : List RepositoryConfig → List Text
names = map (λ r. r.name)

-- None of the repositories has a used name.
abbrev AreNew : List Text → List RepositoryConfig → Type 0
AreNew used_names rs = All (λ r. contains used_names r.name ≡ false) rs

AreNew-other :
    (used_names : List Text) (name : Text) (rs : List RepositoryConfig)
    → AreNew (used_names ++ name ∷ []) rs
    → (contains (names rs) name ≡ false) × AreNew used_names rs
AreNew-other used_names name [] h = (refl, tt)
AreNew-other used_names name (r ∷ rs) (n, h) =
    let (other, old) = AreNew-other used_names name rs h in
    (
      ground (arith, contains-append used_names (name ∷ []) r.name),
      (ground (arith, contains-append used_names (name ∷ []) r.name), old),
    )

alone : (used_names : List Text) (r : RepositoryConfig) → IsVerified used_names r → IsVerified [] r
alone used_names r v = record {
  not_reserved = v.not_reserved;
  not_used = refl;
  known_kind = v.known_kind;
  one_destination = v.one_destination;
  absolute = v.absolute;
}

module _ ⦃lib : Crates⦄ where
  verify_loop-IsVerified :
      (used_names : List Text) (rs : List RepositoryConfig) (w w' : World)
      → Returns (verify_loop used_names rs) w tt w'
      → All (IsVerified []) rs × IsNodup (names rs) × AreNew used_names rs
  unfolding verify_loop
  verify_loop-IsVerified used_names [] w w' h = (tt, tt, tt)
  verify_loop-IsVerified used_names (r ∷ rs) w w' h =
      let (_, h₁, h₂) = bind-Returns (verify_one used_names r) _ w w' tt h in
      let v = verify_one-IsVerified used_names r w _ h₁ in
      let (all, nodup, new) = verify_loop-IsVerified (used_names ++ r.name ∷ []) rs _ w' h₂ in
      let (other, old) = AreNew-other used_names r.name rs new in
      ((alone used_names r v, all), (other, nodup), (v.not_used, old))

  -- An accepted configuration is the one read, where of each repository one slash is gone from the
  -- end of the endpoints and paths that have one, and one from the start of the path in a bucket,
  -- and nothing else has changed. The repositories have different names, none is `all`, each is of
  -- a known kind, has one destination of the two, and a local one is an absolute path.
  pub check_config-IsVerified :
      (config result : Config) (w w' : World)
      → Returns (check_config config) w result w'
      → (result.general ≡ config.general)
        × AreNormalised config.repo result.repo
        × All (IsVerified []) result.repo
        × IsNodup (map (λ r. r.name) result.repo)
  unfolding check_config
  check_config-IsVerified config result w w' h =
      let config' : Config = record config { repo = map normalize config.repo } in
      let (_, h₁, h₂) = bind-Returns (verify_loop [] config'.repo) _ w w' result h in
      let e : config' ≡ result = (pure-Returns config' result _ w' h₂).0 in
      let (all, nodup, _) = verify_loop-IsVerified [] config'.repo w _ h₁ in
      (
        ap (λ (z : Config). z.general) (sym e),
        subst (λ z. AreNormalised config.repo z.repo) e (normalize-AreNormalised config.repo),
        subst (λ z. All (IsVerified []) z.repo) e all,
        subst (λ z. IsNodup (names z.repo)) e nodup,
      )
