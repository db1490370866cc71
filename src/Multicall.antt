-- ===== src/Multicall.antt =====
-- backend/synqc_backend/agents/multicall.py: `run_multicall_agent`, without the physics contract, whose
-- fields the response repeats.
pub mod Runs
use Prim.Native.String.{◌++◌ as str_append}
use syn_qc_temporal_dynamics.Prelude.{
  ℕ, zero, suc, String, Bool, true, false, Option, none, some, [], ◌∷◌, List, Result, ok, raise,
}
use syn_qc_temporal_dynamics.Prelude.Int.{ℤ, pos, negsuc}
use syn_qc_temporal_dynamics.Dict.{Dict, get}
use syn_qc_temporal_dynamics.Models.{WorkflowStep, ExperimentPreset, multicall_dual_clocking}
use syn_qc_temporal_dynamics.Workflow.{
  HttpCallSpec, CallStatus, is_running, is_succeeded, Payload, WorkflowContext, PollHttpStep,
  StepEnd, done, timed_out, no_end, failed, run_step, TraceKpis, kpi_bundle_from_trace,
}

-- The fields of the run's input that the agent reads.
pub record RunInput : Type 0 where
  pub shot_budget : Option ℤ
  pub hardware_target : Option String
  pub notes : Option String

-- `payload.get("status") in {"SUCCEEDED", "FAILED"}`
abbrev pub is_done : Payload → Bool
is_done payload = elim payload.status [ is_running ↦ false | is_succeeded ↦ true ]

-- `run_input.get("shot_budget", 0)`
abbrev pub budget_or_zero : Option ℤ → ℤ
budget_or_zero none = pos 0
budget_or_zero (some n) = n

-- `int(run_input.get("shot_budget") or settings.default_shot_budget)`
abbrev pub budget_or : ℤ → Option ℤ → ℤ
budget_or default none = default
budget_or default (some (pos zero)) = default
budget_or default (some (pos (suc n))) = pos (suc n)
budget_or default (some (negsuc n)) = negsuc n

abbrev pub job_spec : Option Payload → Result String HttpCallSpec
job_spec none = raise "KeyError"
job_spec (some payload) = ok (record {
  method = "GET";
  url = str_append "https://provider.example.com/jobs/" payload.job_id;
  shots = none;
})

-- The one step of the workflow.
abbrev pub provider_job : RunInput → PollHttpStep
provider_job input = record {
  name = "provider_job";
  start_spec = record {
    method = "POST";
    url = "https://provider.example.com/jobs";
    shots = some (budget_or_zero input.shot_budget);
  };
  poll_spec_fn = λ ctx. job_spec (get "provider_job.start" ctx.state);
  is_done_fn = is_done;
  timeout_seconds = 600;
  save_as = "provider_job_status";
}

pub record MulticallResponse : Type 0 where
  pub id : String
  pub preset : ExperimentPreset
  pub hardware_target : String
  pub kpis : TraceKpis
  pub created_at : ℕ
  pub shots_requested : ℤ
  pub shots_executed : ℤ
  pub notes : Option String
  pub workflow_state : Dict Payload
  pub workflow_trace : List WorkflowStep

abbrev pub target_or_default : Option String → String
target_or_default none = "sim_local"
target_or_default (some target) = target

-- `build_workflow_context`
abbrev pub new_context : String → WorkflowContext
new_context experiment_id = record {
  experiment_id = experiment_id;
  events = [];
  state = [];
  trace = [];
}

-- The response that is made of the context of the workflow.
unfoldable pub respond : ℕ → ℤ → RunInput → WorkflowContext → MulticallResponse
unfolding kpi_bundle_from_trace
respond created_at default_budget input ctx =
    let shot_budget = budget_or default_budget input.shot_budget in
    let kpis = kpi_bundle_from_trace ctx shot_budget in
    record {
      id = ctx.experiment_id;
      preset = multicall_dual_clocking;
      hardware_target = target_or_default input.hardware_target;
      kpis = kpis;
      created_at = created_at;
      shots_requested = shot_budget;
      shots_executed = kpis.shots_used;
      notes = input.notes;
      workflow_state = ctx.state;
      workflow_trace = ctx.trace;
    }

-- What the agent's call ends in: a response, an error, or no end within the fuel.
pub data AgentEnd : Type 0 where
  responded : MulticallResponse → AgentEnd
  raised : String → AgentEnd
  unfinished : AgentEnd

abbrev pub agent_end : ℕ → ℤ → RunInput → WorkflowContext × StepEnd → AgentEnd
agent_end created_at default_budget input (ctx, done payload) =
    responded (respond created_at default_budget input ctx)
agent_end created_at default_budget input (ctx, timed_out) = raised "TimeoutError"
agent_end created_at default_budget input (ctx, failed e) = raised e
agent_end created_at default_budget input (ctx, no_end) = unfinished

-- `run_multicall_agent`, with the fuel of its polling loop.
unfoldable pub run_multicall_agent :
    ℕ → (ℕ → String) → ℕ → (ℕ → ℕ) → ℕ → String → ℤ → String → RunInput → AgentEnd
unfolding respond run_step
run_multicall_agent fuel str now clock created_at fresh default_budget experiment_id input =
    agent_end created_at default_budget input
      (run_step str fuel (provider_job input) now clock fresh (new_context experiment_id))
