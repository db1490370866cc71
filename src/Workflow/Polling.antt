-- ===== src/Workflow/Polling.antt =====
-- One round of the polling loop of backend/synqc_backend/orchestration/workflow.py.
use syn_qc_temporal_dynamics.Prelude.{ℕ, suc, String, ◌≡◌, refl, true, false, some, ltb, ok}
use syn_qc_temporal_dynamics.Workflow.{
  HttpCallSpec, Payload, simulate_http, WorkflowContext, PollHttpStep, done, timed_out, noted,
  finished, poll,
}

module _ (str : ℕ → String) (fuel : ℕ) (step : PollHttpStep) (clock : ℕ → ℕ) (fresh : String)
    (deadline attempt : ℕ) (last : Payload) (ctx : WorkflowContext) where
  pub poll-late :
      ltb (clock attempt) deadline ≡ false
      → poll str (suc fuel) step clock fresh deadline attempt last ctx ≡ (ctx, timed_out)
  unfolding poll
  poll-late late = rw late refl

  module _ (spec : HttpCallSpec) (early : ltb (clock attempt) deadline ≡ true)
      (asked : step.poll_spec_fn ctx ≡ ok spec) where
    abbrev pub response : Payload
    response = simulate_http fresh spec attempt (some last)

    pub poll-again :
        step.is_done_fn response ≡ false
        → poll str (suc fuel) step clock fresh deadline attempt last ctx
          ≡ poll str fuel step clock fresh deadline
              (suc attempt)
              response
              (noted str step attempt response ctx)
    unfolding poll
    poll-again open_end = rw (early, asked, open_end) refl

    pub poll-done :
        step.is_done_fn response ≡ true
        → poll str (suc fuel) step clock fresh deadline attempt last ctx
          ≡ (finished str step response (noted str step attempt response ctx), done response)
    unfolding poll
    poll-done ended = rw (early, asked, ended) refl
