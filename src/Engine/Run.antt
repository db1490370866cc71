-- ===== src/Engine/Run.antt =====
-- backend/synqc_backend/engine.py: `run_experiment` behind the guardrail. The arithmetic of floating
-- point values is an interface, and what the provider's run gives, the jitter of the random
-- generator and the trace of `_build_workflow_trace` are arguments. The fields of the physics
-- contract and the KPI details are left out.
pub mod Ends
use syn_qc_temporal_dynamics.Prelude.{
  ℕ, zero, suc, ◌+◌, ◌-◌, String, str_eq, Bool, true, false, not, ◌&&◌, ◌||◌, Option, none, some,
  List, [], ◌∷◌, ltb, min, max, if◌then◌else◌, Result, ok, raise,
}
use syn_qc_temporal_dynamics.Prelude.Int.{ℤ, pos, negsuc, pos_part, ltb_ℤ, ◌+ℤ◌}
use syn_qc_temporal_dynamics.Dict.{Dict}
use syn_qc_temporal_dynamics.Models.{
  ExperimentPreset, hello_quantum_sim, health, latency, backend_compare, dpd_demo, grover_demo,
  multicall_dual_clocking, ExperimentStatus, ok_status, warn_status, fail_status, WorkflowStep,
  ControlProfile, KpiBundle, RunExperimentRequest, RunExperimentResponse,
}
use syn_qc_temporal_dynamics.Budget.Redis.{RedisStrings, Call}
use syn_qc_temporal_dynamics.Budget.{BudgetTracker}
use syn_qc_temporal_dynamics.Storage.{ExperimentStore, add}
use syn_qc_temporal_dynamics.QubitUsage.{SessionQubitTracker, record_run}
use syn_qc_temporal_dynamics.Providers.{ProviderClientError}
use syn_qc_temporal_dynamics.Engine.{Settings, EngineError, apply_shot_guardrails}
use syn_qc_temporal_dynamics.Engine.Kpis.{
  Floats, map_some, ProviderResult, apply_control_profile, estimate_qubits_used, final_kpis,
}

module _ (f : Floats) where
  open f use {Real}

  -- What the run takes from its surroundings: the control profile in use, the answer of the
  -- provider, the wall clock, the jitter, the new id and the trace.
  pub record Surroundings : Type 0 where
    pub active_profile : ControlProfile Real
    pub provider : Result ProviderClientError (ProviderResult Real)
    pub end_time : ℕ
    pub usage_times : ℕ × ℕ
    pub wall_us : Real
    pub jitter : ℤ
    pub run_id : String
    pub workflow_trace : List WorkflowStep
    pub written : Option ℕ

  abbrev pub controls_of : Option (ControlProfile Real) → ControlProfile Real → ControlProfile Real
  controls_of none active = active
  controls_of (some overrides) active = overrides

  -- The response that is made of the KPIs.
  unfoldable pub make_run :
      Settings
      → RunExperimentRequest Real
      → ℕ
      → Bool
      → Surroundings
      → ProviderResult Real
      → RunExperimentResponse Real
  unfolding estimate_qubits_used final_kpis
  make_run s req shots warn w result =
      let controls = controls_of req.control_overrides w.active_profile in
      let adjusted = apply_control_profile f result.kpis controls in
      record {
        id = w.run_id;
        preset = req.preset;
        hardware_target = req.hardware_target;
        kpis = final_kpis f shots warn controls w.wall_us result;
        created_at = w.end_time;
        qubits_used =
            estimate_qubits_used f s req.hardware_target req.preset adjusted shots w.jitter;
        notes = req.notes;
        control_profile = some controls;
        error_code = none;
        error_message = none;
        error_detail = none;
        action_hint = none;
        workflow_trace = w.workflow_trace;
      }

  -- The state of the engine. Without a usage tracker it has none.
  pub record EngineState (redis : RedisStrings) : Type 0 where
    pub store : ExperimentStore (RunExperimentResponse Real)
    pub budget_tracker : BudgetTracker redis
    pub usage_tracker : Option SessionQubitTracker

  -- What a run raises.
  pub data RunError : Type 0 where
    guardrail : EngineError → RunError
    provider_error : ProviderClientError → RunError

  abbrev pub run_key : RunExperimentResponse Real → String
  run_key r = r.id

  abbrev pub run_time : RunExperimentResponse Real → ℕ
  run_time r = r.created_at

  module _ (redis : RedisStrings) (s : Settings) where
    -- What follows a run that the provider has answered: the usage and the store.
    abbrev pub keep_run :
        String → Surroundings → RunExperimentResponse Real → EngineState redis → EngineState redis
    keep_run session_id w run e = record e {
      usage_tracker =
          map_some (record_run w.usage_times.0 w.usage_times.1 session_id (pos run.qubits_used))
            e.usage_tracker;
      store = add run_key run_time w.written run e.store;
    }

    -- What follows the guardrail.
    abbrev pub run_granted :
        RunExperimentRequest Real
        → String
        → Surroundings
        → EngineState redis
        → Result EngineError (ℕ × Bool)
        → EngineState redis × Result RunError (RunExperimentResponse Real)
    run_granted req session_id w e (raise x) = (e, raise (guardrail x))
    run_granted req session_id w e (ok (shots, warn)) = elim w.provider [
      | raise x ↦ (e, raise (provider_error x))
      | ok result ↦
          let run = make_run s req shots warn w result in (keep_run session_id w run e, ok run)
    ]

    -- `run_experiment`
    unfoldable pub run_experiment :
        Call
        → Call
        → ℕ
        → ℕ
        → RunExperimentRequest Real
        → String
        → Surroundings
        → EngineState redis
        → EngineState redis × Result RunError (RunExperimentResponse Real)
    unfolding make_run apply_shot_guardrails
    run_experiment read write now later req session_id w e =
        let (budget, granted) =
          apply_shot_guardrails redis s read write now later e.budget_tracker req.shot_budget
            req.hardware_target session_id in
        run_granted req session_id w (record e { budget_tracker = budget }) granted
