-- ===== src/RunWorker.antt =====
-- backend/synqc_backend/worker.py: `_process_job`. What the engine or the agent of the run gives is
-- an argument, like the clock's readings; log lines and run metrics are left out.
pub mod Outcomes
pub mod Process
use syn_qc_temporal_dynamics.Prelude.{ℕ, String, Option, none, some, [], ◌∷◌}
use syn_qc_temporal_dynamics.Prelude.Int.{ℤ}
use syn_qc_temporal_dynamics.Models.{
  Detail, Json, ExperimentPreset, hello_quantum_sim, health, latency, backend_compare, dpd_demo,
  grover_demo, multicall_dual_clocking, ErrorCode, timeout, budget_exhausted, invalid_request,
  internal_error, RunExperimentResponse,
}
use syn_qc_temporal_dynamics.Providers.{ProviderClientError}
use syn_qc_temporal_dynamics.RunQueue.Redis.{RunServer}
use syn_qc_temporal_dynamics.RunQueue.{QueuedRun, mark_running, complete_success, complete_failure}

-- What a run ends in: its result, or the exception that it raises. A text is the exception's
-- message, and the number of `budget_exceeded` is what remains.
pub data RunOutcome (Real : Type 0) : Type 0 where
  finished : RunExperimentResponse Real → RunOutcome Real
  timed_out : RunOutcome Real
  budget_exceeded : ℕ → String → RunOutcome Real
  provider_failed : ProviderClientError → RunOutcome Real
  value_error : String → RunOutcome Real
  other_error : String → RunOutcome Real

-- The four values that `_handle_failure` is called with.
pub record Failure : Type 0 where
  pub code : ErrorCode
  pub message : String
  pub action_hint : Option String
  pub detail : Option Detail

abbrev pub timeout_failure : ℕ → Failure
timeout_failure timeout_seconds = record {
  code = timeout;
  message = "Job exceeded timeout";
  action_hint = some "Reduce shot budget or wait for fewer concurrent jobs.";
  detail = some (("timeout_seconds", Json.number timeout_seconds) ∷ []);
}

abbrev pub budget_failure : ℕ → String → Failure
budget_failure remaining message = record {
  code = budget_exhausted;
  message = message;
  action_hint = some "Lower the shot budget or wait for the session budget to reset.";
  detail = some (("remaining", Json.number remaining) ∷ []);
}

abbrev pub provider_failure : ProviderClientError → Failure
provider_failure e = record {
  code = e.code;
  message = e.message;
  action_hint = e.action_hint;
  detail = some e.detail;
}

abbrev pub value_failure : String → Failure
value_failure message = record {
  code = invalid_request;
  message = message;
  action_hint = some "Verify the request payload and try again.";
  detail = none;
}

abbrev pub internal_failure : String → Failure
internal_failure message = record {
  code = internal_error;
  message = message;
  action_hint = some "Check worker logs for details and retry after remediation.";
  detail = none;
}

-- The run that the worker itself hands to the experiment store: that of the multicall agent.
abbrev pub stored_run :
    {Real : Type 0} → ExperimentPreset → RunOutcome Real → Option (RunExperimentResponse Real)
stored_run multicall_dual_clocking (finished result) = some result
stored_run _ _ = none

module _ {Real : Type 0} (redis : RunServer Real) where
  open redis use {Server}

  -- `_handle_failure`
  unfoldable pub handle_failure : ℕ → QueuedRun Real → Failure → Server → Server × QueuedRun Real
  handle_failure now job e s =
      complete_failure redis now job e.code e.message e.action_hint e.detail s

  -- What follows the run: its result, or the handler of its exception.
  unfoldable pub finish_job :
      ℕ → ℕ → QueuedRun Real → RunOutcome Real → Server → Server × QueuedRun Real
  unfolding handle_failure
  finish_job timeout_seconds now job (finished result) s = complete_success redis now job result s
  finish_job timeout_seconds now job timed_out s =
      handle_failure now job (timeout_failure timeout_seconds) s
  finish_job timeout_seconds now job (budget_exceeded remaining message) s =
      handle_failure now job (budget_failure remaining message) s
  finish_job timeout_seconds now job (provider_failed e) s =
      handle_failure now job (provider_failure e) s
  finish_job timeout_seconds now job (value_error message) s =
      handle_failure now job (value_failure message) s
  finish_job timeout_seconds now job (other_error message) s =
      handle_failure now job (internal_failure message) s

  -- `_process_job`: the server and the run after it, and the run for the experiment store.
  unfoldable pub process_job :
      ℕ
      → ℕ
      → ℕ
      → QueuedRun Real
      → RunOutcome Real
      → Server
      → Server × QueuedRun Real × Option (RunExperimentResponse Real)
  process_job timeout_seconds started now job outcome s =
      let (s', job') = mark_running redis started job s in
      let (s'', job'') = finish_job timeout_seconds now job' outcome s' in
      (s'', job'', stored_run job.run_request.preset outcome)
