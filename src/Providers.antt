-- ===== src/Providers.antt =====
-- backend/synqc_backend/provider_clients.py: the three clients that sample their counts. A weight of
-- an expected distribution is a number of hundredths, a sampled floating point value is of a
-- parameter type, and the draws of the random generator are an argument.
pub mod Accounts
use syn_qc_temporal_dynamics.Prelude.{
  ℕ, suc, ◌+◌, String, str_eq, Bool, true, false, not, Option, none, some, List, [], ◌∷◌,
  if◌then◌else◌, min, max, Result, ok, raise,
}
use syn_qc_temporal_dynamics.Prelude.Int.{ℤ, pos, negsuc, pos_part}
use syn_qc_temporal_dynamics.Dict.{Dict, get, put}
use syn_qc_temporal_dynamics.Models.{
  Detail, ExperimentPreset, hello_quantum_sim, health, latency, backend_compare, dpd_demo,
  grover_demo, multicall_dual_clocking, ErrorCode, provider_credentials, provider_capacity,
  provider_queue_backpressure,
}

-- `ProviderClientError`
pub record ProviderClientError : Type 0 where
  pub code : ErrorCode
  pub message : String
  pub action_hint : Option String
  pub detail : Detail

-- What the generator gives: the choices for a number of shots, and the three values after them.
pub record Random (Real : Type 0) : Type 0 where
  pub choices : ℕ → List String
  pub fidelity : Real
  pub latency_us : Real
  pub backaction : Real

pub record ProviderLiveResult (Real : Type 0) : Type 0 where
  pub raw_counts : Dict ℕ
  pub expected_distribution : Dict ℕ
  pub fidelity : Real
  pub latency_us : Real
  pub backaction : Real
  pub shots_used : ℕ

abbrev pub weights : ℕ → ℕ → ℕ → ℕ → Dict ℕ
weights a b c d = ("00", a) ∷ ("01", b) ∷ ("10", c) ∷ ("11", d) ∷ []

-- `IonqProviderClient._expected_distribution`
unfoldable pub ionq_distribution : ExperimentPreset → Dict ℕ
ionq_distribution latency = weights 45 25 18 12
ionq_distribution backend_compare = weights 48 19 19 14
ionq_distribution hello_quantum_sim = weights 66 17 11 6
ionq_distribution health = weights 60 20 12 8
ionq_distribution dpd_demo = weights 60 20 12 8
ionq_distribution grover_demo = weights 60 20 12 8
ionq_distribution multicall_dual_clocking = weights 60 20 12 8

-- `AzureQuantumStubClient._expected_distribution`
unfoldable pub azure_distribution : ExperimentPreset → Dict ℕ
azure_distribution latency = weights 52 18 17 13
azure_distribution backend_compare = weights 41 21 20 18
azure_distribution hello_quantum_sim = weights 68 18 9 5
azure_distribution health = weights 60 22 10 8
azure_distribution dpd_demo = weights 60 22 10 8
azure_distribution grover_demo = weights 60 22 10 8
azure_distribution multicall_dual_clocking = weights 60 22 10 8

-- `RigettiForestStubClient._expected_distribution`
unfoldable pub rigetti_distribution : ExperimentPreset → Dict ℕ
rigetti_distribution latency = weights 50 20 16 14
rigetti_distribution backend_compare = weights 46 18 19 17
rigetti_distribution hello_quantum_sim = weights 65 16 13 6
rigetti_distribution health = weights 58 24 10 8
rigetti_distribution dpd_demo = weights 58 24 10 8
rigetti_distribution grover_demo = weights 58 24 10 8
rigetti_distribution multicall_dual_clocking = weights 58 24 10 8

-- `counts = {o: 0 for o in outcomes}`
unfoldable pub zero_counts : Dict ℕ → Dict ℕ
zero_counts [] = []
zero_counts ((outcome, weight) ∷ dist) = (outcome, 0) ∷ zero_counts dist

abbrev pub count_or_zero : Option ℕ → ℕ
count_or_zero none = 0
count_or_zero (some n) = n

-- `for d in draws: counts[d] += 1`; the draws are among the outcomes.
unfoldable pub count_draws : List String → Dict ℕ → Dict ℕ
count_draws [] counts = counts
count_draws (d ∷ draws) counts = count_draws draws (put d (count_or_zero (get d counts) + 1) counts)

-- `_sample_counts`
unfoldable pub sample_counts : Dict ℕ → List String → Dict ℕ
unfolding zero_counts count_draws
sample_counts dist draws = count_draws draws (zero_counts dist)

-- `max(1, min(shot_budget, cap))`
abbrev pub clamp_shots : ℤ → ℕ → ℕ
clamp_shots shot_budget cap = max 1 (min (pos_part shot_budget) cap)

-- `bool(token)`
abbrev pub is_given : Option String → Bool
is_given none = false
is_given (some t) = not (str_eq t "")

module _ {Real : Type 0} where
  unfoldable pub sampled : Dict ℕ → ℕ → Random Real → ProviderLiveResult Real
  unfolding sample_counts
  sampled dist shots rng = record {
    raw_counts = sample_counts dist (rng.choices shots);
    expected_distribution = dist;
    fidelity = rng.fidelity;
    latency_us = rng.latency_us;
    backaction = rng.backaction;
    shots_used = shots;
  }

  -- `IonqProviderClient.run`, which does not ask for the key.
  unfoldable pub ionq_run :
      ExperimentPreset → ℤ → Random Real → Result ProviderClientError (ProviderLiveResult Real)
  unfolding sampled ionq_distribution
  ionq_run preset shot_budget rng =
      ok (sampled (ionq_distribution preset) (clamp_shots shot_budget 100000) rng)

  -- `AzureQuantumStubClient.run`
  unfoldable pub azure_run :
      Option String
      → Bool
      → ExperimentPreset
      → ℤ
      → Random Real
      → Result ProviderClientError (ProviderLiveResult Real)
  unfolding sampled azure_distribution
  azure_run access_token queue_busy preset shot_budget rng =
      if not (is_given access_token)
      then raise (record {
        code = provider_credentials;
        message = "Azure Quantum credentials missing.";
        action_hint = some "Set SYNQC_AZURE_API_KEY to enable Azure Quantum runs.";
        detail = [];
      })
      else if queue_busy
      then raise (record {
        code = provider_queue_backpressure;
        message = "Azure Quantum queue is currently busy.";
        action_hint = some "Wait for capacity or target a different backend.";
        detail = [];
      })
      else ok (sampled (azure_distribution preset) (clamp_shots shot_budget 500000) rng)

  -- `RigettiForestStubClient.run`
  unfoldable pub rigetti_run :
      Option String
      → Bool
      → ExperimentPreset
      → ℤ
      → Random Real
      → Result ProviderClientError (ProviderLiveResult Real)
  unfolding sampled rigetti_distribution
  rigetti_run api_key capacity_exhausted preset shot_budget rng =
      if not (is_given api_key)
      then raise (record {
        code = provider_credentials;
        message = "Rigetti Forest credentials missing.";
        action_hint = some "Set SYNQC_RIGETTI_API_KEY to enable Rigetti runs.";
        detail = [];
      })
      else if capacity_exhausted
      then raise (record {
        code = provider_capacity;
        message = "Rigetti Forest capacity exhausted for the selected region.";
        action_hint = some "Retry later or route to a simulator.";
        detail = [];
      })
      else ok (sampled (rigetti_distribution preset) (clamp_shots shot_budget 100000) rng)
