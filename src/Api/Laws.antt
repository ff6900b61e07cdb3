-- ===== src/Api/Laws.antt =====
-- What the third-party code of the API promises.
use reposync.Base.{
  ℕ, Bool, true, false, not, ◌||◌, ◌&&◌, ◌==◌, ℕ_eq, ltb, ◌≡◌, some, ◌∷◌, ◌++◌, Text, All,
}
use reposync.Base.Parse.{is_utf8}
use reposync.Server.{Status}
use reposync.Api.{Http, Uri}
use reposync.Api.Client.{id_encode_set}

-- The bytes of a path of a URI, and those of a segment of it.
abbrev pub is_path_byte : ℕ → Bool
is_path_byte c =
    ltb 32 c
    && ltb c 127
    && not (c == 34 || c == 60 || c == 62 || c == 96 || c == 124 || c == 35 || c == 63)

abbrev pub is_segment_byte : ℕ → Bool
is_segment_byte c = is_path_byte c && not (c == 47)

abbrev pub ArePathBytes : Text → Type 0
ArePathBytes t = All (λ c. is_path_byte c ≡ true) t

abbrev pub AreSegmentBytes : Text → Type 0
AreSegmentBytes t = All (λ c. is_segment_byte c ≡ true) t

-- A name without the four bytes that the encoding of the client leaves although they mean something
-- in a path.
abbrev pub IsPlain : Text → Type 0
IsPlain t = All (λ c. (c == 47 || c == 63 || c == 35 || c == 37) ≡ false) t

-- What the third-party code promises.
pub record IsHttp (http : Http) : Type 0 where
  pub encoded : (t : Text) → IsPlain t → AreSegmentBytes (http.encode (id_encode_set http) t)
  pub decoded :
      (t : Text)
      → IsPlain t
      → is_utf8 t ≡ true
      → http.decode (http.encode (id_encode_set http) t) ≡ some t
  pub json_text : (s : Status) → is_utf8 (http.to_json s) ≡ true
  pub json_read : (s : Status) → http.from_json (http.to_json s) ≡ some s

-- A base path without a path of its own, as `http://host:port`.
abbrev pub IsRoot : Http → Text → Type 0
IsRoot http base_path =
    (p : Text)
    → ArePathBytes p
    → (u : Uri) × (http.parse_uri (base_path ++ 47 ∷ p) ≡ some u) × (u.path ≡ 47 ∷ p)
