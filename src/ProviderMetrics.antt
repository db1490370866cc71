-- ===== src/ProviderMetrics.antt =====
-- backend/synqc_backend/metrics_recorder.py: the summary of `ProviderMetricsRecorder`. The counters
-- and histograms of the Prometheus client, which the recorder only feeds, are left out.
pub mod Totals
pub mod Codes
use Prim.Native.String.{compare}
use text.Mathlib.Text.{is_le}
use syn_qc_temporal_dynamics.Prelude.{
  ℕ, ◌+◌, String, str_eq, Bool, Option, none, some, List, [], ◌∷◌, ltb, if◌then◌else◌,
}
use syn_qc_temporal_dynamics.Dict.{Dict, get, put}
use syn_qc_temporal_dynamics.Dict.Sweep.{keys_if}
use syn_qc_temporal_dynamics.Storage.Sorting.{sort_by}

pub record Stats : Type 0 where
  pub success : ℕ
  pub failure : ℕ
  pub simulated : ℕ
  pub error_codes : Dict ℕ

abbrev pub ProviderMetrics : Type 0
ProviderMetrics = Dict Stats

-- `hardware_target or "unknown"`, `error_code or "unknown"`
abbrev pub or_unknown : Option String → String
or_unknown none = "unknown"
or_unknown (some t) = if str_eq t "" then "unknown" else t

-- `setdefault(target, {...})`
abbrev pub stats_or_new : Option Stats → Stats
stats_or_new none = record { success = 0; failure = 0; simulated = 0; error_codes = [] }
stats_or_new (some stats) = stats

abbrev pub count_or_zero : Option ℕ → ℕ
count_or_zero none = 0
count_or_zero (some n) = n

abbrev pub add_success : Stats → Stats
add_success stats = record stats { success = stats.success + 1 }

abbrev pub add_failure : String → Stats → Stats
add_failure code stats = record stats {
  failure = stats.failure + 1;
  error_codes = put code (count_or_zero (get code stats.error_codes) + 1) stats.error_codes;
}

abbrev pub add_simulated : Stats → Stats
add_simulated stats = record stats { simulated = stats.simulated + 1 }

unfoldable pub update : String → (Stats → Stats) → ProviderMetrics → ProviderMetrics
update target change m = put target (change (stats_or_new (get target m))) m

unfoldable pub record_success : Option String → ProviderMetrics → ProviderMetrics
unfolding update
record_success target m = update (or_unknown target) add_success m

unfoldable pub record_failure : Option String → Option String → ProviderMetrics → ProviderMetrics
unfolding update
record_failure target code m = update (or_unknown target) (add_failure (or_unknown code)) m

unfoldable pub record_simulated : Option String → ProviderMetrics → ProviderMetrics
unfolding update
record_simulated target m = update (or_unknown target) add_simulated m

abbrev pub reset : ProviderMetrics → ProviderMetrics
reset m = []

-- One of the three sums of the loop over the targets.
unfoldable pub sum_of : (Stats → ℕ) → ProviderMetrics → ℕ
sum_of field [] = 0
sum_of field ((target, stats) ∷ m) = field stats + sum_of field m

abbrev pub has_failed : Stats → Bool
has_failed stats = ltb 0 stats.failure

pub record Health : Type 0 where
  pub success : ℕ
  pub failure : ℕ
  pub simulated : ℕ
  pub targets : Dict Stats
  pub failing_targets : List String

unfoldable pub health_summary : ProviderMetrics → Health
unfolding sum_of
health_summary m = record {
  success = sum_of (λ stats. stats.success) m;
  failure = sum_of (λ stats. stats.failure) m;
  simulated = sum_of (λ stats. stats.simulated) m;
  targets = m;
  failing_targets = sort_by (λ a b. is_le (compare a b)) (keys_if has_failed m);
}
