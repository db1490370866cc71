-- ===== src/Tests/RequestSize.antt =====
-- backend/synqc_backend/middleware.py on small bodies.
use syn_qc_temporal_dynamics.Prelude.{
  ℕ, ◌≤◌, ◌<◌, ◌≡◌, ◌⊎◌, refl, some, List, [], ◌∷◌, arith, length, inr,
}
use syn_qc_temporal_dynamics.Prelude.Int.{pos}
use syn_qc_temporal_dynamics.RequestSize.{
  number, Request, too_large, passed, spool, replay, stream, dispatch,
}
use syn_qc_temporal_dynamics.RequestSize.Replay.{joined, Streamed, dispatch-bytes}

program : Unit {0}
unfolding spool replay stream dispatch
program = tt

-- A multipart body that declares one byte and sends three.
abbrev short_declared : Request
short_declared = record {
  content_length = some (number (pos 1));
  content_type = "multipart/form-data";
  chunks = (1 ∷ 2 ∷ []) ∷ (3 ∷ []) ∷ [];
}

refused : dispatch 2 short_declared ≡ too_large
unfolding program
refused = refl

handed_on : dispatch 3 short_declared ≡ passed ((1 ∷ 2 ∷ 3 ∷ []) ∷ [])
unfolding program
handed_on = refl

streamed : Streamed 3 short_declared
unfolding Streamed
streamed = inr (1, refl, omega arith, refl)

dispatch-bytes_example :
    ((3 < length (joined short_declared.chunks)) × (dispatch 3 short_declared ≡ too_large))
    ⊎ ((length (joined short_declared.chunks) ≤ 3)
        × (messages : List (List ℕ)) × (dispatch 3 short_declared ≡ passed messages)
        × (joined messages ≡ joined short_declared.chunks))
dispatch-bytes_example = dispatch-bytes 3 short_declared streamed
