-- ===== src/Tests/Shor.antt =====
-- synqc_shor/run_store.py and factor.py at concrete inputs.
use syn_qc_temporal_dynamics.Prelude.{
  ℕ, String, ◌≡◌, refl, true, false, none, List, [], ◌∷◌, map, arith, take_last, min, ok, raise,
  inr,
}
use mathlib.Core.List.{reverse}
use syn_qc_temporal_dynamics.Prelude.Int.{pos}
use syn_qc_temporal_dynamics.Shor.RunStore.{
  RunRecord, to_public_summary, trim, record_run, clamp_limit, list_runs, get_run,
}
use syn_qc_temporal_dynamics.Shor.RunStore.Ring.{record_all, list_runs-newest}
use syn_qc_temporal_dynamics.Shor.Factor.{
  auto, classical, Quantum, FactorResult, isqrt, trial_loop, trial_division, factor_semiprime,
  runs_on, run_method, factor,
}
use syn_qc_temporal_dynamics.Shor.Factor.Trial.{FactorsOf, factor_semiprime-composite}
use syn_qc_temporal_dynamics.Shor.Factor.Fallback.{factor-fallback}

program : Unit {0}
unfolding trim record_run list_runs get_run record_all isqrt trial_loop trial_division
    factor_semiprime run_method factor
program = tt

abbrev run : String → RunRecord Unit
run id = record {
  run_id = id;
  ts_utc = "t";
  kind = "factor";
  is_ok = true;
  runtime_ms = 1;
  request = tt;
  response = none;
  error = none;
}

abbrev runs : List (RunRecord Unit)
runs = run "a" ∷ run "b" ∷ run "c" ∷ []

oldest_gone : get_run "a" (record_all 2 runs []) ≡ none
unfolding program
oldest_gone = refl

list_runs-newest_example :
    list_runs (pos 1) (record_all 2 runs [])
    ≡ map to_public_summary (reverse (take_last (min (clamp_limit (pos 1)) 2) runs))
list_runs-newest_example = list_runs-newest 2 (pos 1) runs

-- A prime is handed to the random search, which has nothing to find in it.
prime_runs_on : factor 20 false (raise "absent") none 13 classical ≡ raise runs_on
unfolding program
prime_runs_on = refl

factor_semiprime-composite_example :
    (p : ℕ) × (q : ℕ) × (factor_semiprime none 91 ≡ ok (p, q)) × FactorsOf 91 p q
factor_semiprime-composite_example =
    factor_semiprime-composite none 91 7 (omega arith) (omega arith) (omega arith) (omega arith)

abbrev broken : Quantum
broken = raise "no backend"

factor-fallback_example :
    (r : FactorResult) × (factor 20 true broken none 91 auto ≡ ok r)
    × FactorsOf 91 r.p r.q
    × (r.method_used ≡ "classical_fallback")
factor-fallback_example =
    factor-fallback 20 true broken none 91 7 "no backend" (inr refl) (omega arith) (omega arith)
      (omega arith) (omega arith) (omega arith)
