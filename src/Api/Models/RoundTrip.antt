-- ===== src/Api/Models/RoundTrip.antt =====
-- What `from_str` of generated/src/models.rs reads of a status that `to_string` has printed.
use reposync.Base.{
  ◌==◌, ℕ_eq, text_eq, ◌≡◌, refl, ◌∙◌, ap, false, List, [], ◌∷◌, ◌++◌, Text, lit, All, ℕ-discrete,
  text-discrete,
}
use reposync.Base.Outcome.{ok, ◌>>=◌}
use reposync.Base.Parse.Signed.{IsI64, print_i64, parse_i64-print_i64, print_i64-ne}
use reposync.Server.{Status}
use reposync.Api.Models.{
  join, in_front, split, to_string, empty_rep, parsed, pushed, rep_loop, first, built, from_str,
}

-- A text without a comma.
abbrev pub IsValue : Text → Type 0
IsValue t = All (λ c. (c == 44) ≡ false) t

split-last : (t : Text) → IsValue t → split t ≡ t ∷ []
unfolding split in_front
split-last [] h = refl
split-last (c ∷ t) (h, hs) = rw (h, split-last t hs) refl

split-append : (t s : Text) → IsValue t → split (t ++ 44 ∷ s) ≡ t ∷ split s
unfolding split in_front ℕ-discrete
split-append [] s h = refl
split-append (c ∷ t) s (h, hs) = rw (h, split-append t s hs) refl

split-join :
    (t : Text) (ts : List Text) → IsValue t → All IsValue ts → split (join (t ∷ ts)) ≡ t ∷ ts
unfolding join
split-join t [] h hs = split-last t h
split-join t (u ∷ ts) h (k, ks) =
    split-append t (join (u ∷ ts)) h ∙ ap (◌∷◌ t) (split-join u ts k ks)

-- A status whose texts have no comma, with integers of 64 bits.
pub record IsQuery (s : Status) : Type 0 where
  pub name : IsValue s.name
  pub status : IsValue s.status
  pub last_result : IsValue s.last_result
  pub next_sync : IsI64 s.next_sync
  pub last_sync : IsI64 s.last_sync
  pub size : IsI64 s.size
  pub packages : IsI64 s.packages

-- A status that is printed as a query parameter is read back, if none of its texts has a comma and
-- its integers have 64 bits.
pub from_str-to_string : (s : Status) → IsQuery s → from_str (to_string s) ≡ ok s
unfolding from_str to_string rep_loop pushed parsed first built lit text-discrete ℕ-discrete
from_str-to_string s q =
    ap (λ ts. rep_loop ts empty_rep >>= built)
      (split-join (lit "name")
        (s.name
          ∷ lit "status"
          ∷ s.status
          ∷ lit "next_sync"
          ∷ print_i64 s.next_sync
          ∷ lit "last_sync"
          ∷ print_i64 s.last_sync
          ∷ lit "last_result"
          ∷ s.last_result
          ∷ lit "size"
          ∷ print_i64 s.size
          ∷ lit "packages"
          ∷ print_i64 s.packages
          ∷ [])
        (refl, (refl, (refl, (refl, tt))))
        (
          q.name,
          (
            (refl, (refl, (refl, (refl, (refl, (refl, tt)))))),
            (
              q.status,
              (
                (refl, (refl, (refl, (refl, (refl, (refl, (refl, (refl, (refl, tt))))))))),
                (
                  print_i64-ne s.next_sync,
                  (
                    (refl, (refl, (refl, (refl, (refl, (refl, (refl, (refl, (refl, tt))))))))),
                    (
                      print_i64-ne s.last_sync,
                      (
                        (
                          refl,
                          (
                            refl,
                            (
                              refl,
                              (refl, (refl, (refl, (refl, (refl, (refl, (refl, (refl, tt)))))))),
                            ),
                          ),
                        ),
                        (
                          q.last_result,
                          (
                            (refl, (refl, (refl, (refl, tt)))),
                            (
                              print_i64-ne s.size,
                              (
                                (refl, (refl, (refl, (refl, (refl, (refl, (refl, (refl, tt)))))))),
                                (print_i64-ne s.packages, tt),
                              ),
                            ),
                          ),
                        ),
                      ),
                    ),
                  ),
                ),
              ),
            ),
          ),
        ))
    ∙ rw
        (
          parse_i64-print_i64 s.next_sync q.next_sync,
          parse_i64-print_i64 s.last_sync q.last_sync,
          parse_i64-print_i64 s.size q.size,
          parse_i64-print_i64 s.packages q.packages,
        )
        refl
