-- ===== src/Engine/Run/Ends.antt =====
-- How `run_experiment` of backend/synqc_backend/engine.py ends.
use syn_qc_temporal_dynamics.Prelude.{
  ℕ, ◌+◌, ◌≤◌, ◌<◌, ◌≡◌, ◌≢◌, ◌⊎◌, Bool, true, false, none, some, leb, All, Result, ok, raise,
}
use syn_qc_temporal_dynamics.Prelude.Int.{pos, neg_part, ltb_ℤ}
use syn_qc_temporal_dynamics.Dict.{Dict, get, put}
use syn_qc_temporal_dynamics.Models.{ok_status, RunExperimentRequest, RunExperimentResponse}
use syn_qc_temporal_dynamics.Budget.Redis.{RedisStrings}
use syn_qc_temporal_dynamics.Budget.{BudgetTracker}
use syn_qc_temporal_dynamics.Storage.{values}
use syn_qc_temporal_dynamics.Providers.{ProviderClientError}
use syn_qc_temporal_dynamics.Engine.{Settings, EngineError}
use syn_qc_temporal_dynamics.Engine.Kpis.{
  Floats, estimated_extra, measured, qubit_bounds, ProviderResult, apply_control_profile,
}
use syn_qc_temporal_dynamics.Engine.Run.{
  Surroundings, controls_of, EngineState, RunError, guardrail, provider_error, run_time,
}

module _ (f : Floats) (redis : RedisStrings) (s : Settings) where
  open f use {Real}

  -- What the response says of the run.
  pub record IsReported (req : RunExperimentRequest Real) (shots : ℕ) (warn : Bool)
      (w : Surroundings f) (result : ProviderResult Real) (run : RunExperimentResponse Real)
      : Type 0 where
    pub counted :
        (counts : Dict ℕ)
        → result.raw_counts ≡ some counts
        → 0 < measured counts
        → ltb_ℤ run.kpis.shots_used (pos (measured counts)) ≡ false
    pub budgeted : 1 ≤ shots → run.kpis.shot_budget ≢ pos 0
    pub warned : warn ≡ true → run.kpis.status ≢ ok_status
    pub timed : run.kpis.latency_us ≢ none
    pub some_qubits : 1 ≤ run.qubits_used
    pub few_qubits : run.qubits_used ≤ (qubit_bounds req.hardware_target).1
    pub enough_qubits :
        (qubit_bounds req.hardware_target).0
        ≤ run.qubits_used
          + neg_part (
              estimated_extra f s req.hardware_target req.preset
                (apply_control_profile f result.kpis
                  (controls_of f req.control_overrides w.active_profile))
                shots)
          + neg_part w.jitter

  -- How a run ends, by what the guardrail gives.
  abbrev pub Ends :
      RunExperimentRequest Real
      → Surroundings f
      → EngineState f redis
      → BudgetTracker redis × Result EngineError (ℕ × Bool)
      → EngineState f redis × Result (RunError f) (RunExperimentResponse Real)
      → Type 0
  Ends req w e granted r =
      let reserved = record e { budget_tracker = granted.0 } in
      ((x : EngineError) × (granted.1 ≡ raise x) × (r ≡ (reserved, raise (guardrail x))))
      ⊎ ((shots : ℕ) × (warn : Bool) × (x : ProviderClientError) × (granted.1 ≡ ok (shots, warn))
          × (w.provider ≡ raise x)
          × (r ≡ (reserved, raise (provider_error x))))
      ⊎ ((shots : ℕ) × (warn : Bool) × (result : ProviderResult Real) × (run : RunExperimentResponse
            Real)
          × (granted.1 ≡ ok (shots, warn))
          × (w.provider ≡ ok result)
          × (r.1 ≡ ok run)
          × (r.0.budget_tracker ≡ granted.0)
          × IsReported req shots warn w result run
          × ((get run.id r.0.store.runs ≡ some run)
              ⊎ (All (λ q. leb run.created_at (run_time f q) ≡ true)
                  (values (put run.id run e.store.runs)))))
