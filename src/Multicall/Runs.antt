-- ===== src/Multicall/Runs.antt =====
-- The run of backend/synqc_backend/agents/multicall.py to its end.
use Prim.Native.String.{◌++◌ as str_append}
use syn_qc_temporal_dynamics.Prelude.{ℕ, ◌+◌, String, ◌≡◌, refl, none, some}
use syn_qc_temporal_dynamics.Prelude.Int.{ℤ, pos}
use syn_qc_temporal_dynamics.Dict.{get, get-put}
use syn_qc_temporal_dynamics.Workflow.{
  HttpCallSpec, is_succeeded, Payload, simulate_http, WorkflowContext, PollHttpStep, noted,
  finished, started, kpi_bundle_from_trace,
}
use syn_qc_temporal_dynamics.Multicall.{
  RunInput, provider_job, new_context, respond, budget_or, MulticallResponse,
}

-- What a response says after the two polls of the agent: the shots are those of the input or the
-- default, the job is the one that the start made, and its result is that of the second poll.
pub record Complete (budget : ℤ) (fresh : String) (r : MulticallResponse) : Type 0 where
  pub requested : r.shots_requested ≡ budget
  pub executed : r.shots_executed ≡ budget
  pub used : r.kpis.shots_used ≡ budget
  pub fidelity : r.kpis.fidelity ≡ 94
  pub latency : r.kpis.latency_us ≡ some 1000000
  pub answer : Payload
  pub saved : get "provider_job_status" r.workflow_state ≡ some answer
  pub succeeded : answer.status ≡ is_succeeded
  pub second : answer.attempt ≡ 1
  pub same_job : answer.job_id ≡ fresh
  pub consumed : answer.shots_consumed ≡ some (pos 0)

module _ (str : ℕ → String) (fuel now : ℕ) (clock : ℕ → ℕ) (created : ℕ) (fresh : String)
    (default : ℤ) (id : String) (input : RunInput) where
  abbrev deadline : ℕ
  deadline = now + 600

  abbrev job : PollHttpStep
  job = provider_job input

  abbrev spec : HttpCallSpec
  spec = record {
    method = "GET";
    url = str_append "https://provider.example.com/jobs/" fresh;
    shots = none;
  }

  abbrev first_payload : Payload
  first_payload = simulate_http fresh job.start_spec 0 none

  abbrev first_context : WorkflowContext
  first_context = started str job first_payload (new_context id)

  abbrev running_payload : Payload
  running_payload = simulate_http fresh spec 0 (some first_payload)

  abbrev polled : WorkflowContext
  polled = noted str job 0 running_payload first_context

  abbrev last_payload : Payload
  last_payload = simulate_http fresh spec 1 (some running_payload)

  abbrev last_context : WorkflowContext
  last_context = finished str job last_payload (noted str job 1 last_payload polled)

  last-saved : get "provider_job_status" last_context.state ≡ some last_payload
  last-saved = get-put "provider_job_status" "provider_job_status" last_payload _

  complete :
      Complete
        (budget_or default input.shot_budget)
        fresh
        (respond created default input last_context)
  unfolding respond kpi_bundle_from_trace simulate_http
  complete = record {
    requested = refl;
    executed = refl;
    used = refl;
    fidelity = rw last-saved refl;
    latency = refl;
    answer = last_payload;
    saved = last-saved;
    succeeded = refl;
    second = refl;
    same_job = refl;
    consumed = refl;
  }
