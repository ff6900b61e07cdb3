-- ===== src/Destination/Stream.antt =====
-- `FileAdapter` of src/destination.rs: the stream by which the body of an upload is read.
pub mod Whole
use reposync.Base.{
  ℕ, zero, suc, ◌+◌, ◌≤◌, ◌<◌, ◌≡◌, ◌≢◌, refl, ap, ◌∙◌, Option, none, some, List, [], ◌∷◌, ◌++◌,
  Text, arith, leb, if◌then◌else◌, length, take, All, Option-cases, inl, inr,
}
use reposync.Base.Outcome.{Outcome, Result, ok, err, panic, IoError}

-- The bytes of the file that have not been read.
pub record FileAdapter : Type 0 where
  pub file : Text

pub data Poll : Type 0 where
  ready_some : Text → Poll
  ready_error : IoError → Poll
  ready_none : Poll

skip : ℕ → Text → Text
skip zero s = s
skip (suc n) [] = []
skip (suc n) (c ∷ s) = skip n s

-- The size of the buffer, or less where the system reads fewer bytes; it reads one at least, if
-- one is left.
read_size : ℕ → ℕ
read_size granted = if leb (suc granted) 4096 then suc granted else 4096

-- What a read gave; no byte is the end of the file.
polled : Text → Poll
polled [] = ready_none
polled (c ∷ s) = ready_some (c ∷ s)

-- `poll_next`, whose `read` fails, or reads as many bytes as the system grants.
unfoldable pub poll_next : Option IoError → ℕ → FileAdapter → Poll × FileAdapter
unfolding read_size polled skip
poll_next fault granted a = elim fault [
  | some e ↦ (ready_error e, a)
  | none ↦
      (polled (take (read_size granted) a.file), record { file = skip (read_size granted) a.file })
]

-- `size_hint`, from the length in the metadata of the file, if there is one.
unfoldable pub size_hint : Option ℕ → ℕ × Option ℕ
size_hint (some len) = (len, some len)
size_hint none = (0, none)

with_chunk : Text → Option (Result (List Text)) → Option (Result (List Text))
with_chunk c (some (ok cs)) = some (ok (c ∷ cs))
with_chunk c r = r

-- The chunks that a client reads up to the end of the stream or its first error, where the calls
-- from a number on fail and grant as given; `none` is that the fuel ran out.
unfoldable pub collect :
    ℕ → (ℕ → Option IoError) → (ℕ → ℕ) → ℕ → FileAdapter → Option (Result (List Text))
unfolding poll_next with_chunk
collect zero faults grants n a = none
collect (suc fuel) faults grants n a =
    let (p, a') = poll_next (faults n) (grants n) a in
    let rest = collect fuel faults grants (suc n) a' in
    elim p [
      | ready_none ↦ some (ok [])
      | ready_error e ↦ some (err e)
      | ready_some c ↦ with_chunk c rest
    ]
