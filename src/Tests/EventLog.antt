-- ===== src/Tests/EventLog.antt =====
-- backend/synqc_backend/orchestration/event_store.py, on two experiments.
use syn_qc_temporal_dynamics.Prelude.{List, [], ◌∷◌, ◌++◌, ◌≡◌, refl, length, min, ok}
use syn_qc_temporal_dynamics.Prelude.Int.{pos}
use syn_qc_temporal_dynamics.Dict.{get, put, pop}
use syn_qc_temporal_dynamics.Models.{Detail, number, text}
use syn_qc_temporal_dynamics.EventLog.{append, list, stamped, events_of, window}
use syn_qc_temporal_dynamics.EventLog.Window.{Call, append_all, payloads, list_newest}

program : Unit {0}
unfolding get put pop append list stamped events_of window append_all
program = tt

abbrev calls : List Call
calls =
    (1, "a", ("event", text "x") ∷ [])
    ∷ (2, "b", ("event", text "y") ∷ [])
    ∷ (3, "a", ("timestamp", number 9) ∷ [])
    ∷ []

list_last : list "a" (pos 1) (append_all calls []) ≡ ok ((("timestamp", number 9) ∷ []) ∷ [])
unfolding program
list_last = refl

list_newest_example :
    (earlier : List Detail) × (shown : List Detail) × (list "a" (pos 1) (append_all calls [])
      ≡ ok shown)
    × (earlier ++ shown ≡ payloads "a" calls)
    × (length shown ≡ min 1 (length (payloads "a" calls)))
list_newest_example = list_newest calls "a" 0
