-- ===== src/RequestSize.antt =====
-- backend/synqc_backend/middleware.py: `MaxRequestSizeMiddleware`. A body is a list of chunks of
-- bytes, and the route behind the middleware is given by the messages that it receives. The content
-- type comes cut at its semicolon.
pub mod Replay
use syn_qc_temporal_dynamics.Prelude.{
  ◌-◌, ℕ, zero, suc, ◌+◌, String, str_eq, Bool, true, false, not, ◌&&◌, ◌||◌, Option, none, some,
  List, [], ◌∷◌, ◌++◌, ltb, if◌then◌else◌, length, take, drop,
}
use syn_qc_temporal_dynamics.Prelude.Int.{ℤ, pos, ltb_ℤ}
use syn_qc_temporal_dynamics.Dict.Sweep.{member}

-- The header: `int` raises on a text that is no number.
pub data ContentLength : Type 0 where
  malformed : ContentLength
  number : ℤ → ContentLength

pub record Request : Type 0 where
  pub content_length : Option ContentLength
  pub content_type : String
  pub chunks : List (List ℕ)

-- A refusal, or the bodies of the messages that the route receives.
pub data Response : Type 0 where
  too_large invalid_content_length : Response
  passed : List (List ℕ) → Response

abbrev pub safe_content_types : List String
safe_content_types =
    "application/json" ∷ "application/x-www-form-urlencoded" ∷ "multipart/form-data" ∷ "text/plain"
    ∷ []

abbrev pub receive_chunk_size : ℕ
receive_chunk_size = 65536

-- The header is trusted: the body is not read here.
abbrev pub is_trusted : String → Bool
is_trusted content_type =
    member content_type safe_content_types && not (str_eq content_type "multipart/form-data")

-- The loop over the stream, from the running total and the spooled bytes.
unfoldable pub spool : ℕ → ℕ → List ℕ → List (List ℕ) → Option (List ℕ)
spool max_size total body [] = some body
spool max_size total body (chunk ∷ chunks) =
    let rest = spool max_size (total + length chunk) (body ++ chunk) chunks in
    if ltb max_size (total + length chunk) then none else rest

-- The messages of `receive`, up to the first empty one, on fuel. A message is at most `size + 1`
-- bytes long; the source's size is `receive_chunk_size`.
unfoldable pub replay : ℕ → ℕ → List ℕ → List (List ℕ)
replay size zero body = []
replay size (suc fuel) [] = []
replay size (suc fuel) (b ∷ body) = (b ∷ take size body) ∷ replay size fuel (drop size body)

-- One message for each byte is the most that a body gives.
unfoldable pub stream : ℕ → List (List ℕ) → Response
unfolding spool replay
stream max_size chunks = elim (spool max_size 0 [] chunks) [
  | none ↦ too_large
  | some body ↦ passed (replay (receive_chunk_size - 1) (length body) body)
]

unfoldable pub dispatch : ℕ → Request → Response
unfolding stream
dispatch max_size r = elim r.content_length [
  | none ↦ stream max_size r.chunks
  | some header ↦ elim header [
    | malformed ↦ invalid_content_length
    | number n ↦
        if ltb_ℤ (pos max_size) n
        then too_large
        else if is_trusted r.content_type
        then passed r.chunks
        else stream max_size r.chunks
  ]
]
