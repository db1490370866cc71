-- ===== src/Jobs/Threads.antt =====
-- `_run_job` of backend/synqc_backend/jobs.py: the sections of a job's thread.
use syn_qc_temporal_dynamics.Prelude.{
  ℕ, ◌+◌, ◌-◌, String, str_eq, Option, none, some, List, [], ◌∷◌, ◌++◌, ltb, if◌then◌else◌,
}
use syn_qc_temporal_dynamics.Dict.{get, put, pop}
use syn_qc_temporal_dynamics.Models.{
  ErrorCode, budget_exhausted, invalid_request, internal_error, code_value, number, text, Detail,
}
use syn_qc_temporal_dynamics.Jobs.Records.{
  running, succeeded, failed, JobRecord, is_terminal, is_running, or_else, merge,
}
use syn_qc_temporal_dynamics.Jobs.{
  working, closing, finished, Outcome, returned, budget_exceeded, provider_failed, value_error,
  other_error, Metric, run_succeeded, run_failed, JobQueue, fail_job,
}

module _ (Real : Type 0) where
  -- The first section of `_run_job`: a record that has failed meanwhile ends the thread, any other
  -- is running from now on, under a timer if there is a timeout.
  unfoldable pub start : ℕ → String → JobQueue Real → JobQueue Real
  start now job_id q = elim (get job_id q.jobs) [
    | none ↦ q
    | some r ↦ elim r.status [
      | failed ↦ record q { futures = put job_id finished q.futures }
      | _ ↦ record q {
        jobs = put job_id (record r { status = running; started_at = some now }) q.jobs;
        timers =
            if ltb 0 q.job_timeout_seconds
            then put job_id (now + q.job_timeout_seconds) q.timers
            else q.timers;
        futures = put job_id working q.futures;
      }
    ]
  ]

  -- `detail = {"code": ..., "message": ...}`, updated by `extra` and then by the hint.
  unfoldable pub failure_detail : ErrorCode → String → Option Detail → Option String → Detail
  failure_detail code message extra hint =
      let base = ("code", text (code_value code)) ∷ ("message", text message) ∷ [] in
      let merged : Detail = elim extra [ none ↦ base | some more ↦ merge base more ] in
      elim hint [
        | none ↦ merged
        | some h ↦ if str_eq h "" then merged else put "action_hint" (text h) merged
      ]

  -- `_fail_record`
  unfoldable pub fail_record :
      Option ℕ
      → ℕ
      → String
      → ErrorCode
      → String
      → Option Detail
      → Option String
      → JobQueue Real
      → JobQueue Real
  unfolding fail_job failure_detail
  fail_record written now job_id code message extra hint q = elim (get job_id q.jobs) [
    | none ↦ q
    | some r ↦
        if is_running r.status
        then fail_job Real written now message code message job_id hint
            (failure_detail code message extra hint) r q
        else q
  ]

  -- `getattr(exc, "action_hint", None) or "..."`
  abbrev pub provider_hint : Option String → Option String
  provider_hint none = some "Check provider credentials or select a simulator backend."
  provider_hint (some h) =
      if str_eq h ""
      then some "Check provider credentials or select a simulator backend."
      else some h

  -- The end of the `try` of `_run_job`: the outcome of the worker function.
  unfoldable pub settle : Option ℕ → ℕ → String → Outcome Real → JobQueue Real → JobQueue Real
  unfolding fail_record
  settle written now job_id (returned result) q = elim (get job_id q.jobs) [
    | none ↦ q
    | some r ↦
        if is_running r.status
        then record q {
          jobs = put job_id (record r { result = some result; status = succeeded }) q.jobs;
        }
        else q
  ]
  settle written now job_id (budget_exceeded message remaining) q =
      fail_record written now job_id budget_exhausted message
        (some (("remaining", number remaining) ∷ []))
        (some "Lower the shot budget or wait for the session budget to reset.") q
  settle written now job_id (provider_failed code message hint detail) q =
      fail_record written now job_id code message detail (provider_hint hint) q
  settle written now job_id (value_error message) q =
      fail_record written now job_id invalid_request message none
        (some "Verify the request payload and try again.") q
  settle written now job_id (other_error message) q =
      fail_record written now job_id internal_error message none
        (some "Check backend logs for details and retry after remediation.") q

  unfoldable pub complete : Option ℕ → ℕ → String → Outcome Real → JobQueue Real → JobQueue Real
  unfolding settle
  complete written now job_id outcome q =
      let q' = settle written now job_id outcome q in
      record q' { futures = put job_id closing q'.futures }

  -- `_observe_metrics`, over a record whose times are known as far as they are.
  unfoldable pub observe : ℕ → JobRecord Real → List Metric → List Metric
  observe now r metrics =
      let started = or_else r.started_at (or_else (some r.created_at) now) in
      let ended = or_else r.finished_at now in
      let latency = ended - started in
      let target =
        if str_eq r.request.hardware_target "" then "unknown" else r.request.hardware_target in
      elim r.status [
        | succeeded ↦ metrics ++ run_succeeded target latency ∷ []
        | failed ↦
            metrics
            ++ run_failed target (elim r.error_code [ none ↦ "unknown" | some c ↦ code_value c ])
                latency
              ∷ []
        | _ ↦ metrics
      ]

  -- `record.finished_at = time.time()` if it is missing on a terminal record.
  unfoldable pub stamp : ℕ → JobRecord Real → JobRecord Real
  stamp now r = elim r.finished_at [
    | some _ ↦ r
    | none ↦ if is_terminal r.status then record r { finished_at = some now } else r
  ]

  -- The `finally` of `_run_job`.
  unfoldable pub finalize : ℕ → String → JobQueue Real → JobQueue Real
  unfolding stamp observe
  finalize now job_id q = elim (get job_id q.jobs) [
    | none ↦ q
    | some r ↦ record q {
      jobs = put job_id (stamp now r) q.jobs;
      timers = pop job_id q.timers;
      metrics = observe now (stamp now r) q.metrics;
      futures = put job_id finished q.futures;
    }
  ]
