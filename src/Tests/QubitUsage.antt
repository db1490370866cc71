-- ===== src/Tests/QubitUsage.antt =====
-- backend/synqc_backend/qubit_usage.py, with a lifetime of 100.
use syn_qc_temporal_dynamics.Prelude.{List, [], ◌∷◌, ◌≡◌, refl, arith}
use syn_qc_temporal_dynamics.Prelude.Int.{pos, negsuc}
use syn_qc_temporal_dynamics.Dict.{get, put, pop}
use syn_qc_temporal_dynamics.Dict.Sweep.{keys_if, pop_all}
use syn_qc_temporal_dynamics.QubitUsage.{
  SessionQubitTracker, record_run, snapshot, evict_expired, tracked_sessions,
}
use syn_qc_temporal_dynamics.QubitUsage.Totals.{Run, record_all, total_of, snapshot-total}

program : Unit {0}
unfolding get put pop keys_if pop_all record_run snapshot evict_expired tracked_sessions record_all
program = tt

abbrev empty : SessionQubitTracker
empty = record { ttl_seconds = 100; usage = [] }

-- A negative number of qubits counts as none, also as the last run.
abbrev runs : List Run
runs = ("a", 10, pos 5) ∷ ("b", 20, pos 3) ∷ ("a", 30, negsuc 6) ∷ ("a", 40, pos 2) ∷ []

sessions_lapse : (tracked_sessions 125 (record_all runs empty)).1 ≡ 1
unfolding program
sessions_lapse = refl

snapshot-total_example :
    (snapshot 60 "a" (record_all runs empty)).1.session_total ≡ total_of "a" runs
snapshot-total_example =
    snapshot-total 10 60 "a" runs empty refl
      (
        (omega arith, omega arith),
        (
          (omega arith, omega arith),
          ((omega arith, omega arith), ((omega arith, omega arith), tt)),
        ),
      )
      (omega arith)
