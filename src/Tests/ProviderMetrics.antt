-- ===== src/Tests/ProviderMetrics.antt =====
-- backend/synqc_backend/metrics_recorder.py on calls of two targets.
use syn_qc_temporal_dynamics.Prelude.{◌≡◌, refl, none, some, List, [], ◌∷◌, count_if}
use syn_qc_temporal_dynamics.Dict.{get, put}
use syn_qc_temporal_dynamics.Dict.Sweep.{keys_if}
use syn_qc_temporal_dynamics.Storage.Sorting.{insert_by, sort_by}
use syn_qc_temporal_dynamics.ProviderMetrics.{
  update, record_success, record_failure, record_simulated, sum_of, health_summary,
}
use syn_qc_temporal_dynamics.ProviderMetrics.Totals.{
  Call, succeeded, simulated, failed, record_call, record_all, has_succeeded, is_failure,
  is_simulated, health_summary-totals,
}
use syn_qc_temporal_dynamics.ProviderMetrics.Codes.{AllBalanced, health_summary-Balanced}

program : Unit {0}
unfolding get put keys_if insert_by sort_by update record_success record_failure record_simulated
    sum_of health_summary record_call record_all
program = tt

abbrev calls : List Call
calls =
    (some "ibm", failed (some "E1"))
    ∷ (none, failed none)
    ∷ (some "ibm", succeeded)
    ∷ (some "aws", failed (some "E1"))
    ∷ (some "aws", simulated)
    ∷ []

failing : (health_summary (record_all calls [])).failing_targets ≡ "aws" ∷ "ibm" ∷ "unknown" ∷ []
unfolding program
failing = refl

health_summary-totals_example :
    ((health_summary (record_all calls [])).success ≡ count_if has_succeeded calls)
    × ((health_summary (record_all calls [])).failure ≡ count_if is_failure calls)
    × ((health_summary (record_all calls [])).simulated ≡ count_if is_simulated calls)
health_summary-totals_example = health_summary-totals calls

health_summary-Balanced_example : AllBalanced (health_summary (record_all calls [])).targets
health_summary-Balanced_example = health_summary-Balanced calls
