-- ===== src/Base/Texts.antt =====
-- Rust's `String` and `&str`: the bytes of the text. Every literal of the program is ASCII, so its
-- bytes are its code points.
use Prim.Native.Nat.{ℕ, compare, Ordering}
use Prim.Native.Char.{code}
use Prim.Native.String.{String}
use mathlib.Core.Bool.{Bool, true, false, ◌&&◌}
use mathlib.Core.List.{List, [], ◌∷◌, reverse}
use mathlib.Core.Option.{Option, none, some}
use reposync.Base.Tests.{if◌then◌else◌}
use reposync.Base.Equality.{◌==◌, ℕ_eq}

abbrev pub Text : Type 0
Text = List ℕ

abbrev codes : String → Text
codes String.[] = []
codes (String.◌∷◌ c s) = code c ∷ codes s

-- A literal of the source. It is shut, so that a proof sees a name and no list of numbers.
unfoldable pub lit : String → Text
lit s = codes s

-- `str::starts_with`
unfoldable pub starts_with : Text → Text → Bool
starts_with s [] = true
starts_with [] (p ∷ ps) = false
starts_with (c ∷ s) (p ∷ ps) = c == p && starts_with s ps

-- `str::ends_with`
unfoldable pub ends_with : Text → Text → Bool
unfolding starts_with
ends_with s p = starts_with (reverse s) (reverse p)

-- `str::contains`
unfoldable pub contains_text : Text → Text → Bool
unfolding starts_with
contains_text [] p = starts_with [] p
contains_text (c ∷ s) p =
    let rest = contains_text s p in if starts_with (c ∷ s) p then true else rest

-- The order of `String`, by which a `BTreeMap` is sorted: by bytes, a prefix first.
unfoldable pub text_lt : Text → Text → Bool
text_lt [] [] = false
text_lt [] (d ∷ t) = true
text_lt (c ∷ s) [] = false
text_lt (c ∷ s) (d ∷ t) = elim (compare c d) [
  | Ordering.lt ↦ true
  | Ordering.eq ↦ text_lt s t
  | Ordering.gt ↦ false
]

-- What stands behind the text of the first argument, once `starts_with` has found it.
unfoldable pub drop_text : Text → Text → Text
drop_text [] t = t
drop_text (x ∷ xs) [] = []
drop_text (x ∷ xs) (y ∷ t) = drop_text xs t

-- `s.splitn(2, sep)`: the part before the first separator, and the part after it if there is one.
unfoldable pub split_once : Text → Text → Text × Option Text
unfolding starts_with drop_text
split_once sep [] = if starts_with [] sep then ([], some []) else ([], none)
split_once sep (c ∷ s) =
    let rest : Text × Option Text = (let (a, b) = split_once sep s in (c ∷ a, b)) in
    if starts_with (c ∷ s) sep then ([], some (drop_text sep (c ∷ s))) else rest

-- `s.replace(c, "")` at one byte
unfoldable pub without_byte : ℕ → Text → Text
without_byte b [] = []
without_byte b (c ∷ s) = let rest = without_byte b s in if c == b then rest else c ∷ rest
