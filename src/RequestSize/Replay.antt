-- ===== src/RequestSize/Replay.antt =====
-- What the middleware of backend/synqc_backend/middleware.py hands on of a streamed body.
use syn_qc_temporal_dynamics.Prelude.{
  ℕ, zero, suc, ◌+◌, ◌-◌, ◌≤◌, ◌<◌, ◌≡◌, ◌⊎◌, refl, false, none, some, List, [], ◌∷◌, ◌++◌, arith,
  ltb, length, take, drop, length-append, length-drop, take-append-drop, Bool-cases, inl, inr, sym,
  ap, ◌∙◌,
}
use syn_qc_temporal_dynamics.Prelude.Int.{pos, ltb_ℤ}
use mathlib.Core.List.{append_assoc, append-nil}
use syn_qc_temporal_dynamics.RequestSize.{
  number, Request, too_large, passed, receive_chunk_size, is_trusted, spool, replay, stream,
  dispatch,
}

pub joined : List (List ℕ) → List ℕ
joined [] = []
joined (chunk ∷ chunks) = chunk ++ joined chunks

spool-fits :
    (max_size total : ℕ) (body : List ℕ) (chunks : List (List ℕ))
    → total + length (joined chunks) ≤ max_size
    → spool max_size total body chunks ≡ some (body ++ joined chunks)
unfolding spool joined
spool-fits max_size total body [] h = ap some (sym (append-nil body))
spool-fits max_size total body (chunk ∷ chunks) h =
    let sizes = length-append chunk (joined chunks) in
    let fits : ltb max_size (total + length chunk) ≡ false = ground (arith, h, sizes) in
    rw fits (
      spool-fits max_size (total + length chunk) (body ++ chunk) chunks (omega (arith, h, sizes))
      ∙ ap some (append_assoc body chunk (joined chunks)))

spool-exceeds :
    (max_size total : ℕ) (body : List ℕ) (chunks : List (List ℕ))
    → total ≤ max_size
    → max_size < total + length (joined chunks)
    → spool max_size total body chunks ≡ none
unfolding spool joined
spool-exceeds max_size total body [] low h = absurd (omega arith)
spool-exceeds max_size total body (chunk ∷ chunks) low h =
    let sizes = length-append chunk (joined chunks) in
    elim (Bool-cases (ltb max_size (total + length chunk))) [
      | inl over ↦ rw over refl
      | inr fits ↦
          let low' : total + length chunk ≤ max_size = ground arith in
          rw fits (
            spool-exceeds max_size (total + length chunk) (body ++ chunk) chunks low'
              (omega (arith, h, sizes)))
    ]

joined-replay :
    (size fuel : ℕ) (body : List ℕ) → length body ≤ fuel → joined (replay size fuel body) ≡ body
unfolding joined replay
joined-replay size zero [] h = refl
joined-replay size zero (b ∷ body) h = absurd (omega arith)
joined-replay size (suc fuel) [] h = refl
joined-replay size (suc fuel) (b ∷ body) h =
    let rest = joined-replay size fuel (drop size body) (omega (arith, h, length-drop size body)) in
    ap (λ l. b ∷ (take size body ++ l)) rest ∙ ap (λ l. b ∷ l) (take-append-drop size body)

-- The middleware reads the body of a request itself if it has no content length, or has one that
-- is not over the limit but a content type that is not trusted.
unfoldable pub Streamed : ℕ → Request → Type 0
Streamed max_size r =
    (r.content_length ≡ none)
    ⊎ ((n : ℕ) × (r.content_length ≡ some (number (pos n)))
        × (n ≤ max_size)
        × (is_trusted r.content_type ≡ false))

dispatch-stream :
    (max_size : ℕ) (r : Request)
    → Streamed max_size r
    → dispatch max_size r ≡ stream max_size r.chunks
unfolding dispatch Streamed
dispatch-stream max_size r (inl h) = rw h refl
dispatch-stream max_size r (inr (n, h, le, untrusted)) =
    let fits : ltb_ℤ (pos max_size) (pos n) ≡ false = ground arith in rw (h, fits, untrusted) refl

-- A body that the middleware reads itself is refused exactly if it is longer than the limit,
-- whatever length was declared; otherwise the route receives all its bytes, in order.
pub dispatch-bytes :
    (max_size : ℕ) (r : Request)
    → Streamed max_size r
    → ((max_size < length (joined r.chunks)) × (dispatch max_size r ≡ too_large))
      ⊎ ((length (joined r.chunks) ≤ max_size)
          × (messages : List (List ℕ)) × (dispatch max_size r ≡ passed messages)
          × (joined messages ≡ joined r.chunks))
unfolding stream
dispatch-bytes max_size r streamed =
    let step = dispatch-stream max_size r streamed in
    let body = joined r.chunks in
    elim (Bool-cases (ltb max_size (length body))) [
      | inl over ↦
          let long : max_size < length body = ground arith in
          let none_left =
            spool-exceeds max_size 0 [] r.chunks (omega arith) (omega (arith, long)) in
          inl (long, step ∙ rw (stream, none_left) refl)
      | inr fits ↦
          let short : length body ≤ max_size = ground arith in
          let all = spool-fits max_size 0 [] r.chunks (omega (arith, short)) in
          inr (
            short,
            replay (receive_chunk_size - 1) (length body) body,
            step ∙ rw (stream, all) refl,
            joined-replay (receive_chunk_size - 1) (length body) body (omega arith),
          )
    ]
