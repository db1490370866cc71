-- ===== src/Jobs/Records.antt =====
-- The job records of backend/synqc_backend/jobs.py, and the run that `_persist_failure` stores.
use syn_qc_temporal_dynamics.Prelude.{
  ℕ, zero, suc, String, Bool, true, false, Option, none, some, [], ◌∷◌,
}
use syn_qc_temporal_dynamics.Prelude.Int.{ℤ, pos}
use syn_qc_temporal_dynamics.Dict.{put}
use syn_qc_temporal_dynamics.Models.{
  ErrorCode, Detail, WorkflowStep, fail_status, RunExperimentRequest, RunExperimentResponse,
}

pub data JobStatus : Type 0 where
  queued running succeeded failed : JobStatus

abbrev pub is_active : JobStatus → Bool
is_active queued = true
is_active running = true
is_active _ = false

abbrev pub is_terminal : JobStatus → Bool
is_terminal succeeded = true
is_terminal failed = true
is_terminal _ = false

abbrev pub is_running : JobStatus → Bool
is_running running = true
is_running _ = false

-- `time or default`
abbrev pub or_else : Option ℕ → ℕ → ℕ
or_else none now = now
or_else (some zero) now = now
or_else (some (suc t)) now = suc t

-- `d.update(more)`
unfoldable pub merge : Detail → Detail → Detail
merge d [] = d
merge d ((k, v) ∷ more) = merge (put k v d) more

-- `shot_budget or 0`
abbrev pub budget_or_zero : Option ℤ → ℤ
budget_or_zero none = pos 0
budget_or_zero (some n) = n

abbrev pub ingest_step : WorkflowStep
ingest_step = record {
  id = "ingest";
  label = "Ingest";
  description = "Submission rejected before execution; see error_detail.";
  percent_complete = 20;
  dwell_ms = 300;
}

abbrev pub guardrail_step : WorkflowStep
guardrail_step = record {
  id = "commit";
  label = "Guardrail";
  description = "Budget/validation guardrail halted the workflow.";
  percent_complete = 100;
  dwell_ms = 300;
}

pub record JobRecord (Real : Type 0) : Type 0 where
  pub id : String
  pub request : RunExperimentRequest Real
  pub status : JobStatus
  pub created_at : ℕ
  pub started_at : Option ℕ
  pub finished_at : Option ℕ
  pub result : Option (RunExperimentResponse Real)
  pub error : Option String
  pub error_detail : Option Detail
  pub error_code : Option ErrorCode
  pub error_message : Option String
  pub action_hint : Option String

module _ {Real : Type 0} where
  unfoldable pub new_record : String → ℕ → RunExperimentRequest Real → JobRecord Real
  new_record job_id now request = record {
    id = job_id;
    request = request;
    status = queued;
    created_at = now;
    started_at = none;
    finished_at = none;
    result = none;
    error = none;
    error_detail = none;
    error_code = none;
    error_message = none;
    action_hint = none;
  }

  -- The run that `_persist_failure` hands to the experiment store.
  unfoldable pub failure_run : ℕ → JobRecord Real → RunExperimentResponse Real
  failure_run now r = record {
    id = r.id;
    preset = r.request.preset;
    hardware_target = r.request.hardware_target;
    kpis = record {
      fidelity = none;
      latency_us = none;
      backaction = none;
      shots_used = pos 0;
      shot_budget = budget_or_zero r.request.shot_budget;
      status = fail_status;
    };
    created_at = or_else r.finished_at now;
    qubits_used = 0;
    notes = r.request.notes;
    control_profile = r.request.control_overrides;
    error_code = r.error_code;
    error_message = r.error_message;
    error_detail = r.error_detail;
    action_hint = r.action_hint;
    workflow_trace = ingest_step ∷ guardrail_step ∷ [];
  }
