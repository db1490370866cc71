-- ===== src/ProviderMetrics/Codes.antt =====
-- The error codes of each target in backend/synqc_backend/metrics_recorder.py.
use syn_qc_temporal_dynamics.Prelude.{
  ℕ, ◌+◌, String, str_eq, ◌≡◌, refl, List, [], ◌∷◌, arith, All, Bool-cases, inl, inr,
}
use syn_qc_temporal_dynamics.Dict.{Dict, get, put}
use syn_qc_temporal_dynamics.ProviderMetrics.{
  Stats, ProviderMetrics, or_unknown, stats_or_new, count_or_zero, update, record_success,
  record_failure, record_simulated, health_summary,
}
use syn_qc_temporal_dynamics.ProviderMetrics.Totals.{
  Call, succeeded, simulated, failed, record_call, record_all,
}

-- The sum of the counts by code.
pub codes_total : Dict ℕ → ℕ
codes_total [] = 0
codes_total ((code, n) ∷ counts) = n + codes_total counts

codes_total-put :
    (code : String) (n : ℕ) (counts : Dict ℕ)
    → codes_total (put code n counts) + count_or_zero (get code counts) ≡ codes_total counts + n
unfolding codes_total put get
codes_total-put code n [] = ground arith
codes_total-put code n ((j, w) ∷ counts) = ground (arith, codes_total-put code n counts)

abbrev pub Balanced : Stats → Type 0
Balanced stats = codes_total stats.error_codes ≡ stats.failure

abbrev pub AllBalanced : Dict Stats → Type 0
AllBalanced m = All (λ e. Balanced e.1) m

put-AllBalanced :
    (k : String) (v : Stats) (m : ProviderMetrics)
    → Balanced v
    → AllBalanced m
    → AllBalanced (put k v m)
unfolding put
put-AllBalanced k v [] b h = (b, tt)
put-AllBalanced k v ((j, w) ∷ m) b h = elim (Bool-cases (str_eq j k)) [
  | inl e ↦ rw e (b, h.1)
  | inr e ↦ rw e (h.0, put-AllBalanced k v m b h.1)
]

stats-Balanced :
    (k : String) (m : ProviderMetrics) → AllBalanced m → Balanced (stats_or_new (get k m))
unfolding get codes_total
stats-Balanced k [] h = refl
stats-Balanced k ((j, w) ∷ m) h = elim (Bool-cases (str_eq j k)) [
  | inl e ↦ rw e h.0
  | inr e ↦ rw e (stats-Balanced k m h.1)
]

record_call-AllBalanced :
    (call : Call) (m : ProviderMetrics) → AllBalanced m → AllBalanced (record_call call m)
unfolding record_call record_success record_failure record_simulated update
record_call-AllBalanced (target, succeeded) m h =
    put-AllBalanced (or_unknown target) _ m (stats-Balanced (or_unknown target) m h) h
record_call-AllBalanced (target, simulated) m h =
    put-AllBalanced (or_unknown target) _ m (stats-Balanced (or_unknown target) m h) h
record_call-AllBalanced (target, failed code) m h =
    let stats = stats_or_new (get (or_unknown target) m) in
    let old : Balanced stats = stats-Balanced (or_unknown target) m h in
    put-AllBalanced (or_unknown target) _ m
      (omega (
        arith,
        old,
        codes_total-put (or_unknown code)
            (count_or_zero (get (or_unknown code) stats.error_codes) + 1) stats.error_codes,
      ))
      h

record_all-AllBalanced :
    (calls : List Call) (m : ProviderMetrics) → AllBalanced m → AllBalanced (record_all calls m)
unfolding record_all
record_all-AllBalanced [] m h = h
record_all-AllBalanced (call ∷ calls) m h =
    record_all-AllBalanced calls (record_call call m) (record_call-AllBalanced call m h)

-- Whatever calls were recorded, for every target of the health summary the counts by error code
-- sum up to the target's failures.
pub health_summary-Balanced :
    (calls : List Call) → AllBalanced (health_summary (record_all calls [])).targets
unfolding health_summary
health_summary-Balanced calls = record_all-AllBalanced calls [] tt
