-- ===== src/World/Defs.antt =====
-- The state, and the actions on it that may fail or panic.
use reposync.Base.{ℕ, Bool, Option, List, Text, ◌++◌}
use reposync.Base.Outcome.{Outcome, ok, err, panic, IoError, io_error}
use reposync.Base.Crates.{Reader}
use reposync.Base.Dict.{Dict}

pub data Node : Type 0 where
  dir : Node
  file : Text → Node

-- Files and directories by the components of their absolute paths; the first entry of a path counts.
abbrev pub Fs : Type 0
Fs = List (List Text × Node)

-- A request of `reqwest`, and its answer: a response with its status and body, or a failed `send`
-- with the status of its error, if it has one.
pub record Request : Type 0 where
  pub url : Text
  pub authorization : Option Text

pub data Answer : Type 0 where
  response : ℕ → Reader → Answer
  no_response : Option ℕ → Text → Answer

pub record World : Type 0 where
  pub fs : Fs
  -- the calls of `std::fs` so far, and the error of the call with that number, if it fails
  pub fs_calls : ℕ
  pub fs_fault : ℕ → Option IoError
  -- whether the mode of an entry has no bit for writing; the program never changes a mode
  pub read_only : List Text → Bool
  -- the requests sent so far, and the answer to the request with that number
  pub sent : ℕ
  pub net : ℕ → Request → Answer
  -- the objects of the bucket, the requests that cloudfront accepted, and the cloud's calls so far
  pub bucket : Dict Text
  pub invalidated : List (List Text)
  pub cloud_calls : ℕ
  pub cloud_fault : ℕ → Option Text

-- An action returns the new state beside its outcome: what was written before a failure stays.
abbrev pub Exec : Type 0 → Type 0 → Type 0
Exec E A = World → Outcome E A × World

abbrev pub Io : Type 0 → Type 0
Io A = Exec IoError A

abbrev pub continue : {E A B : Type 0} → Outcome E A → (A → Exec E B) → World → Outcome E B × World
continue (ok a) f w = f a w
continue (err e) f w = (err e, w)
continue panic f w = (panic, w)

unfoldable pub pure : {E A : Type 0} → A → Exec E A
pure a w = (ok a, w)

unfoldable pub throw : {E A : Type 0} → E → Exec E A
throw e w = (err e, w)

unfoldable pub abort : {E A : Type 0} → Exec E A
abort w = (panic, w)

unfoldable pub lift : {E A : Type 0} → Outcome E A → Exec E A
lift r w = (r, w)

-- The outcome as a value, for code that looks at a `Result` itself. A panic passes through.
abbrev pub reified : {E F A : Type 0} → Outcome E A → Outcome F (Outcome E A)
reified (ok a) = ok (ok a)
reified (err e) = ok (err e)
reified panic = panic

unfoldable pub try : {E F A : Type 0} → Exec E A → Exec F (Outcome E A)
try m w = (reified (m w).0, (m w).1)

-- `unwrap` and `expect` of a `Result`
abbrev pub unwrapped : {E F A : Type 0} → Outcome E A → Outcome F A
unwrapped (ok a) = ok a
unwrapped (err e) = panic
unwrapped panic = panic

unfoldable pub unwrap : {E F A : Type 0} → Exec E A → Exec F A
unwrap m w = (unwrapped (m w).0, (m w).1)

-- `map_err` by hand, as the source writes it: the same kind, and a longer message.
abbrev pub in_context : {A : Type 0} → Text → Outcome IoError A → Outcome IoError A
in_context prefix (ok a) = ok a
in_context prefix (err e) = err (io_error e.kind (prefix ++ e.message))
in_context prefix panic = panic

unfoldable pub with_context : {A : Type 0} → Text → Io A → Io A
with_context prefix m w = (in_context prefix (m w).0, (m w).1)

-- An action that depends on the state.
unfoldable pub with_world : {E A : Type 0} → (World → Exec E A) → Exec E A
with_world f w = f w w

infixl 5 ◌>>=◌ ◌>>◌
-- To unfold this is to unfold all of the above.
unfoldable pub ◌>>=◌ : {E A B : Type 0} → Exec E A → (A → Exec E B) → Exec E B
unfolding pure throw abort lift try unwrap with_context with_world
◌>>=◌ m f w = continue (m w).0 f (m w).1

abbrev pub ◌>>◌ : {E A B : Type 0} → Exec E A → Exec E B → Exec E B
m >> k = m >>= λ _. k
