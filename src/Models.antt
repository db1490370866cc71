-- ===== src/Models.antt =====
-- backend/synqc_backend/models.py and backend/synqc_backend/control_profiles.py: the data that the
-- engine, the queues and the stores exchange. The program only stores and passes on most floating
-- point values, so their type is a parameter, `Real`; a time is a whole number of one unit. Fields
-- that no modelled code reads or writes are left out.
use syn_qc_temporal_dynamics.Prelude.{ℕ, String, Bool, Option, List}
use syn_qc_temporal_dynamics.Prelude.Int.{ℤ}
use syn_qc_temporal_dynamics.Dict.{Dict}

pub data ExperimentPreset : Type 0 where
  hello_quantum_sim health latency backend_compare dpd_demo grover_demo : ExperimentPreset
  multicall_dual_clocking : ExperimentPreset

pub data ExperimentStatus : Type 0 where
  ok_status warn_status fail_status : ExperimentStatus

pub data ErrorCode : Type 0 where
  auth_required remote_disabled provider_sim_disabled provider_credentials : ErrorCode
  provider_capacity provider_queue_backpressure invalid_target invalid_request : ErrorCode
  budget_exhausted rate_limited budget_guardrail timeout cancelled internal_error : ErrorCode
  provider_error : ErrorCode

-- `code.value`
unfoldable pub code_value : ErrorCode → String
code_value auth_required = "AUTH_REQUIRED"
code_value remote_disabled = "REMOTE_DISABLED"
code_value provider_sim_disabled = "PROVIDER_SIM_DISABLED"
code_value provider_credentials = "PROVIDER_CREDENTIALS"
code_value provider_capacity = "PROVIDER_CAPACITY"
code_value provider_queue_backpressure = "PROVIDER_QUEUE_BACKPRESSURE"
code_value invalid_target = "INVALID_TARGET"
code_value invalid_request = "INVALID_REQUEST"
code_value budget_exhausted = "BUDGET_EXHAUSTED"
code_value rate_limited = "RATE_LIMITED"
code_value budget_guardrail = "BUDGET_GUARDRAIL"
code_value timeout = "TIMEOUT"
code_value cancelled = "CANCELLED"
code_value internal_error = "INTERNAL_ERROR"
code_value provider_error = "PROVIDER_ERROR"

-- A value of an `error_detail` dictionary.
pub data Json : Type 0 where
  null : Json
  number : ℕ → Json
  text : String → Json
  flag : Bool → Json

abbrev pub Detail : Type 0
Detail = Dict Json

pub record WorkflowStep : Type 0 where
  pub id : String
  pub label : String
  pub description : String
  pub percent_complete : ℕ
  pub dwell_ms : ℕ

pub record ControlProfile (Real : Type 0) : Type 0 where
  pub drive_bias : Real
  pub probe_window_ns : ℤ
  pub feedback_gain : Real
  pub safety_clamp_ns : ℤ
  pub thermal_guard_enabled : Bool
  pub tracer_persistence_ms : ℤ
  pub notes : Option String

pub record KpiBundle (Real : Type 0) : Type 0 where
  pub fidelity : Option Real
  pub latency_us : Option Real
  pub backaction : Option Real
  pub shots_used : ℤ
  pub shot_budget : ℤ
  pub status : ExperimentStatus

pub record RunExperimentRequest (Real : Type 0) : Type 0 where
  pub preset : ExperimentPreset
  pub hardware_target : String
  pub shot_budget : Option ℤ
  pub notes : Option String
  pub control_overrides : Option (ControlProfile Real)

pub record RunExperimentResponse (Real : Type 0) : Type 0 where
  pub id : String
  pub preset : ExperimentPreset
  pub hardware_target : String
  pub kpis : KpiBundle Real
  pub created_at : ℕ
  pub qubits_used : ℕ
  pub notes : Option String
  pub control_profile : Option (ControlProfile Real)
  pub error_code : Option ErrorCode
  pub error_message : Option String
  pub error_detail : Option Detail
  pub action_hint : Option String
  pub workflow_trace : List WorkflowStep
