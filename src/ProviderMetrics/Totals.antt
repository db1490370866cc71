-- ===== src/ProviderMetrics/Totals.antt =====
-- The summary of backend/synqc_backend/metrics_recorder.py against the calls that fed it.
use syn_qc_temporal_dynamics.Prelude.{
  ℕ, ◌+◌, String, ◌≡◌, refl, Bool, true, false, Option, none, List, [], ◌∷◌, arith, if◌then◌else◌,
  count_if,
}
use syn_qc_temporal_dynamics.Dict.{get, put}
use syn_qc_temporal_dynamics.ProviderMetrics.{
  Stats, ProviderMetrics, or_unknown, stats_or_new, add_success, add_failure, add_simulated, update,
  record_success, record_failure, record_simulated, sum_of, health_summary,
}

pub data Outcome : Type 0 where
  succeeded simulated : Outcome
  failed : Option String → Outcome

-- A call of a provider: its target and its outcome.
abbrev pub Call : Type 0
Call = Option String × Outcome

unfoldable pub record_call : Call → ProviderMetrics → ProviderMetrics
unfolding record_success record_failure record_simulated
record_call (target, succeeded) m = record_success target m
record_call (target, simulated) m = record_simulated target m
record_call (target, failed code) m = record_failure target code m

unfoldable pub record_all : List Call → ProviderMetrics → ProviderMetrics
record_all [] m = m
record_all (call ∷ calls) m = record_all calls (record_call call m)

abbrev pub has_succeeded : Call → Bool
has_succeeded (target, succeeded) = true
has_succeeded (target, _) = false

abbrev pub is_simulated : Call → Bool
is_simulated (target, simulated) = true
is_simulated (target, _) = false

abbrev pub is_failure : Call → Bool
is_failure (target, failed code) = true
is_failure (target, _) = false

sum_of-put :
    (field : Stats → ℕ) (k : String) (v : Stats) (m : ProviderMetrics)
    → field (stats_or_new none) ≡ 0
    → sum_of field (put k v m) + field (stats_or_new (get k m)) ≡ sum_of field m + field v
unfolding sum_of put get
sum_of-put field k v [] z = ground arith
sum_of-put field k v ((j, w) ∷ m) z = ground (arith, sum_of-put field k v m z)

-- The three sums of the summary.
abbrev Sums : ProviderMetrics → ℕ → ℕ → ℕ → Type 0
Sums m a b c =
    (sum_of (λ stats. stats.success) m ≡ a)
    × (sum_of (λ stats. stats.failure) m ≡ b)
    × (sum_of (λ stats. stats.simulated) m ≡ c)

sum_of-update :
    (field : Stats → ℕ) (target : String) (change : Stats → Stats) (n : ℕ) (m : ProviderMetrics)
    → field (stats_or_new none) ≡ 0
    → ((stats : Stats) → field (change stats) ≡ field stats + n)
    → sum_of field (update target change m) ≡ sum_of field m + n
unfolding update
sum_of-update field target change n m z step =
    let old = stats_or_new (get target m) in
    omega (arith, sum_of-put field target (change old) m z, step old)

Sums-record_call :
    (call : Call) (m : ProviderMetrics)
    → Sums
        (record_call call m)
        (sum_of (λ stats. stats.success) m + (if has_succeeded call then 1 else 0))
        (sum_of (λ stats. stats.failure) m + (if is_failure call then 1 else 0))
        (sum_of (λ stats. stats.simulated) m + (if is_simulated call then 1 else 0))
unfolding record_call record_success record_failure record_simulated
Sums-record_call (target, succeeded) m =
    let by =
      λ (field : Stats → ℕ) (n : ℕ). sum_of-update field (or_unknown target) add_success n m in
    (
      by (λ stats. stats.success) 1 refl (λ _. refl),
      by (λ stats. stats.failure) 0 refl (λ _. omega arith),
      by (λ stats. stats.simulated) 0 refl (λ _. omega arith),
    )
Sums-record_call (target, simulated) m =
    let by =
      λ (field : Stats → ℕ) (n : ℕ). sum_of-update field (or_unknown target) add_simulated n m in
    (
      by (λ stats. stats.success) 0 refl (λ _. omega arith),
      by (λ stats. stats.failure) 0 refl (λ _. omega arith),
      by (λ stats. stats.simulated) 1 refl (λ _. refl),
    )
Sums-record_call (target, failed code) m =
    let by = λ (field : Stats → ℕ) (n : ℕ).
      sum_of-update field (or_unknown target) (add_failure (or_unknown code)) n m in
    (
      by (λ stats. stats.success) 0 refl (λ _. omega arith),
      by (λ stats. stats.failure) 1 refl (λ _. refl),
      by (λ stats. stats.simulated) 0 refl (λ _. omega arith),
    )

Sums-record_all :
    (calls : List Call) (m : ProviderMetrics)
    → Sums
        (record_all calls m)
        (sum_of (λ stats. stats.success) m + count_if has_succeeded calls)
        (sum_of (λ stats. stats.failure) m + count_if is_failure calls)
        (sum_of (λ stats. stats.simulated) m + count_if is_simulated calls)
unfolding record_all
Sums-record_all [] m = (omega arith, omega arith, omega arith)
Sums-record_all (call ∷ calls) m =
    let (a, b, c) = Sums-record_call call m in
    let (a', b', c') = Sums-record_all calls (record_call call m) in
    (omega (arith, a, a'), omega (arith, b, b'), omega (arith, c, c'))

-- Whatever calls were recorded, of whichever targets, the totals of the health summary are the
-- numbers of calls that succeeded, failed and were simulated.
pub health_summary-totals :
    (calls : List Call)
    → ((health_summary (record_all calls [])).success ≡ count_if has_succeeded calls)
      × ((health_summary (record_all calls [])).failure ≡ count_if is_failure calls)
      × ((health_summary (record_all calls [])).simulated ≡ count_if is_simulated calls)
unfolding health_summary sum_of
health_summary-totals calls =
    let (a, b, c) = Sums-record_all calls [] in
    (omega (arith, a), omega (arith, b), omega (arith, c))
