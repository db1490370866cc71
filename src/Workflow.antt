-- ===== src/Workflow.antt =====
-- backend/synqc_backend/orchestration/workflow.py and call_client.py: the polled step of a workflow.
-- The clock is a function of the number of its reading, random ids are arguments, and `str` is
-- Python's text of a number. The dictionaries of a call have fixed keys and are records. A fidelity or a backaction is
-- a number of hundredths.
pub mod Polling
use Prim.Native.String.{◌++◌ as str_append}
use syn_qc_temporal_dynamics.Prelude.{
  ℕ, zero, suc, ◌+◌, ◌*◌, ◌/◌, String, Bool, Option, none, some, List, [], ◌∷◌, ◌++◌, ltb, length,
  if◌then◌else◌, Result, ok, raise,
}
use syn_qc_temporal_dynamics.Prelude.Int.{ℤ, pos, negsuc}
use syn_qc_temporal_dynamics.Dict.{Dict, get, put}
use syn_qc_temporal_dynamics.Models.{WorkflowStep, ExperimentStatus, ok_status}

-- A call, with the shots of its body, if it has a body. Its number of retries and its timeout are
-- not read.
pub record HttpCallSpec : Type 0 where
  pub method : String
  pub url : String
  pub shots : Option ℤ

-- The texts "RUNNING" and "SUCCEEDED" that `_simulate_http` answers with.
pub data CallStatus : Type 0 where
  is_running is_succeeded : CallStatus

-- An answer, with the `shots_consumed` of its result, if it has a result.
pub record Payload : Type 0 where
  pub url : String
  pub method : String
  pub attempt : ℕ
  pub job_id : String
  pub status : CallStatus
  pub shots_consumed : Option ℤ

-- `(spec.json or {}).get("shots", 0)`
abbrev pub shots_or_zero : Option ℤ → ℤ
shots_or_zero none = pos 0
shots_or_zero (some n) = n

abbrev pub id_or : String → Option Payload → String
id_or fresh none = fresh
id_or fresh (some prior) = prior.job_id

abbrev pub status_of : ℕ → CallStatus
status_of zero = is_running
status_of (suc n) = is_succeeded

abbrev pub consumed_of : ℕ → HttpCallSpec → Option ℤ
consumed_of zero spec = none
consumed_of (suc n) spec = some (shots_or_zero spec.shots)

-- `_simulate_http`
unfoldable pub simulate_http : String → HttpCallSpec → ℕ → Option Payload → Payload
simulate_http fresh spec attempt prior = record {
  url = spec.url;
  method = spec.method;
  attempt = attempt;
  job_id = id_or fresh prior;
  status = status_of attempt;
  shots_consumed = consumed_of attempt spec;
}

-- `WorkflowContext`, with the recorded events of its experiment by name.
pub record WorkflowContext : Type 0 where
  pub experiment_id : String
  pub events : List (String × Payload)
  pub state : Dict Payload
  pub trace : List WorkflowStep

-- `record_event`
abbrev pub record_event : String → Payload → WorkflowContext → WorkflowContext
record_event name payload ctx = record ctx { events = ctx.events ++ ((name, payload) ∷ []) }

-- `add_trace`
abbrev pub add_trace : WorkflowStep → WorkflowContext → WorkflowContext
add_trace step ctx = record ctx { trace = ctx.trace ++ (step ∷ []) }

-- `ctx.state[key] = payload`
abbrev pub set_state : String → Payload → WorkflowContext → WorkflowContext
set_state key payload ctx = record ctx { state = put key payload ctx.state }

-- `PollHttpStep`, without the seconds that it sleeps between two polls.
pub record PollHttpStep : Type 0 where
  pub name : String
  pub start_spec : HttpCallSpec
  pub poll_spec_fn : WorkflowContext → Result String HttpCallSpec
  pub is_done_fn : Payload → Bool
  pub timeout_seconds : ℕ
  pub save_as : String

-- What a step ends in: the last answer, `TimeoutError`, another error, or no end within the fuel.
pub data StepEnd : Type 0 where
  done : Payload → StepEnd
  timed_out no_end : StepEnd
  failed : String → StepEnd

abbrev pub start_step : PollHttpStep → WorkflowStep
start_step step = record {
  id = str_append step.name "_start";
  label = str_append step.name " start";
  description =
      str_append "Started " (str_append step.name (str_append " call to " step.start_spec.url));
  percent_complete = 10;
  dwell_ms = 450;
}

abbrev pub status_text : CallStatus → String
status_text is_running = "RUNNING"
status_text is_succeeded = "SUCCEEDED"

abbrev pub done_step : PollHttpStep → Payload → WorkflowStep
done_step step response = record {
  id = str_append step.name "_done";
  label = str_append step.name " done";
  description =
      str_append step.name (str_append " finished with status=" (status_text response.status));
  percent_complete = 85;
  dwell_ms = 450;
}

module _ (str : ℕ → String) where
  abbrev pub poll_key : PollHttpStep → ℕ → String
  poll_key step attempt = str_append step.name (str_append ".poll." (str attempt))

  -- The part of one poll before the test of its answer.
  abbrev pub noted : PollHttpStep → ℕ → Payload → WorkflowContext → WorkflowContext
  noted step attempt response ctx =
      record_event (str_append step.name ".poll") response
        (set_state (poll_key step attempt) response ctx)

  -- The part after an answer that ends the step.
  abbrev pub finished : PollHttpStep → Payload → WorkflowContext → WorkflowContext
  finished step response ctx =
      add_trace (done_step step response) (set_state step.save_as response ctx)

  -- The loop of `run`, at most as many times as the fuel says.
  unfoldable pub poll :
      ℕ
      → PollHttpStep
      → (ℕ → ℕ)
      → String
      → ℕ
      → ℕ
      → Payload
      → WorkflowContext
      → WorkflowContext × StepEnd
  unfolding simulate_http
  poll zero step clock fresh deadline attempt last ctx = (ctx, no_end)
  poll (suc fuel) step clock fresh deadline attempt last ctx =
      if ltb (clock attempt) deadline
      then (elim (step.poll_spec_fn ctx) [
        | raise e ↦ (ctx, failed e)
        | ok spec ↦
            let response = simulate_http fresh spec attempt (some last) in
            let ctx' = noted step attempt response ctx in
            let rest = poll fuel step clock fresh deadline (suc attempt) response ctx' in
            if step.is_done_fn response then (finished step response ctx', done response) else rest
      ])
      else (ctx, timed_out)

  -- What `run` does before the loop.
  abbrev pub started : PollHttpStep → Payload → WorkflowContext → WorkflowContext
  started step payload ctx = add_trace (start_step step) (
      record_event (str_append step.name ".start") payload
        (set_state (str_append step.name ".start") payload ctx))

  -- `PollHttpStep.run`, started at a time.
  unfoldable pub run_step :
      ℕ → PollHttpStep → ℕ → (ℕ → ℕ) → String → WorkflowContext → WorkflowContext × StepEnd
  unfolding poll simulate_http
  run_step fuel step now clock fresh ctx =
      let payload = simulate_http fresh step.start_spec 0 none in
      poll fuel step clock fresh (now + step.timeout_seconds) 0 payload (started step payload ctx)

-- The part of a `KpiBundle` that the trace gives.
pub record TraceKpis : Type 0 where
  pub fidelity : ℕ
  pub latency_us : Option ℕ
  pub backaction : ℕ
  pub raw_counts : Dict ℤ
  pub expected_distribution : Dict ℕ
  pub shots_used : ℤ
  pub shot_budget : ℤ
  pub status : ExperimentStatus

-- Python's `n // 2`, which rounds down.
abbrev pub half : ℤ → ℤ
half (pos n) = pos (n / 2)
half (negsuc n) = negsuc (n / 2)

abbrev pub latency_of : List WorkflowStep → Option ℕ
latency_of [] = none
latency_of (step ∷ steps) = some (length (step ∷ steps) * 500000)

abbrev pub either : {A : Type 0} → Option Payload → A → A → A
either none present absent = absent
either (some p) present absent = present

-- `Workflow.kpi_bundle_from_trace`
unfoldable pub kpi_bundle_from_trace : WorkflowContext → ℤ → TraceKpis
kpi_bundle_from_trace ctx shot_budget =
    let status_payload = get "provider_job_status" ctx.state in
    record {
      fidelity = either status_payload 94 90;
      latency_us = latency_of ctx.trace;
      backaction = either status_payload 18 22;
      raw_counts = ("00", half shot_budget) ∷ ("11", half shot_budget) ∷ [];
      expected_distribution = ("00", 50) ∷ ("11", 50) ∷ [];
      shots_used = shot_budget;
      shot_budget = shot_budget;
      status = ok_status;
    }
