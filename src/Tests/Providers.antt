-- ===== src/Tests/Providers.antt =====
-- backend/synqc_backend/provider_clients.py with a generator that always chooses the same outcome.
use syn_qc_temporal_dynamics.Prelude.{
  ℕ, zero, suc, String, ◌≡◌, refl, true, false, some, List, [], ◌∷◌, length, All, ok, ap,
}
use syn_qc_temporal_dynamics.Prelude.Int.{pos}
use syn_qc_temporal_dynamics.Dict.{get, put}
use syn_qc_temporal_dynamics.Dict.Sweep.{member}
use syn_qc_temporal_dynamics.Models.{latency, provider_capacity, provider_queue_backpressure}
use syn_qc_temporal_dynamics.Providers.{
  ProviderLiveResult, Random, ionq_distribution, azure_distribution, rigetti_distribution,
  zero_counts, count_draws, sample_counts, sampled, ionq_run, azure_run, rigetti_run,
}
use syn_qc_temporal_dynamics.Providers.Accounts.{Accounted, Answers, clients-Accounted}

program : Unit {0}
unfolding get put ionq_distribution azure_distribution rigetti_distribution zero_counts count_draws
    sample_counts sampled ionq_run azure_run rigetti_run
program = tt

same : ℕ → List String
same zero = []
same (suc n) = "01" ∷ same n

same-IsFair :
    (n : ℕ)
    → (length (same n) ≡ n) × All (λ d. member d ("00" ∷ "01" ∷ "10" ∷ "11" ∷ []) ≡ true) (same n)
unfolding same
same-IsFair zero = (refl, tt)
same-IsFair (suc n) = (ap suc (same-IsFair n).0, (refl, (same-IsFair n).1))

abbrev rng : Random ℕ
rng = record { choices = same; fidelity = 93; latency_us = 85; backaction = 11 }

three_shots :
    azure_run (some "key") false latency (pos 3) rng
    ≡ ok (record {
      raw_counts = ("00", 0) ∷ ("01", 3) ∷ ("10", 0) ∷ ("11", 0) ∷ [];
      expected_distribution = ("00", 52) ∷ ("01", 18) ∷ ("10", 17) ∷ ("11", 13) ∷ [];
      fidelity = 93;
      latency_us = 85;
      backaction = 11;
      shots_used = 3;
    })
unfolding program same
three_shots = refl

clients-Accounted_example :
    ((r : ProviderLiveResult ℕ) × (ionq_run latency (pos 3) rng ≡ ok r)
      × Accounted (pos 3) 100000 r)
    × Answers rng same-IsFair
        (some "key")
        false
        provider_queue_backpressure
        (pos 3)
        500000
        (azure_run (some "key") false latency (pos 3) rng)
    × Answers rng same-IsFair
        (some "key")
        false
        provider_capacity
        (pos 3)
        100000
        (rigetti_run (some "key") false latency (pos 3) rng)
clients-Accounted_example = clients-Accounted rng same-IsFair latency (pos 3) (some "key") false
