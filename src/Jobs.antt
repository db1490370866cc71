-- ===== src/Jobs.antt =====
-- backend/synqc_backend/jobs.py: `JobQueue`, a thread pool with a record for each job.
-- A method that takes the lock is one function here, from state to state; a job's thread is the row
-- of its sections: `start`, then `complete` with the outcome of the worker function, then
-- `finalize`. The executor is the standard library's: a future is pending until a thread takes it,
-- and only a pending future can be cancelled.
-- The sqlite spool is left out: `SqliteJobStore` is imported from a module that does not define it,
-- so `_persist` is always `None`.
pub mod Records
pub mod Threads
pub mod Statistics
pub mod Steps
pub mod Failures
pub mod Counting
pub mod Pending
use syn_qc_temporal_dynamics.Prelude.{
  ℕ, zero, suc, ◌+◌, ◌-◌, String, str_eq, Bool, true, false, ◌||◌, Option, none, some, List, [],
  ◌∷◌, ◌++◌, leb, ltb, if◌then◌else◌, length, Result, ok, raise, ◌>>=◌,
}
use syn_qc_temporal_dynamics.Prelude.Int.{ℤ, pos}
use syn_qc_temporal_dynamics.Dict.{Dict, get, put, pop}
use syn_qc_temporal_dynamics.Dict.Tally.{tally}
use syn_qc_temporal_dynamics.Models.{
  ErrorCode, cancelled, timeout, budget_exhausted, invalid_request, internal_error, code_value,
  Json, null, number, text, Detail, RunExperimentRequest, RunExperimentResponse,
}
use syn_qc_temporal_dynamics.Storage
use syn_qc_temporal_dynamics.Storage.{ExperimentStore}
use Records.{
  JobStatus, queued, running, succeeded, failed, JobRecord, new_record, is_active, is_terminal,
  is_running, or_else, merge, failure_run,
}

-- Where a job's future stands.
pub data Task : Type 0 where
  pending working closing finished dropped : Task

-- How the worker function ends: with a result, or with an exception of one of the classes that
-- `_run_job` tells apart.
pub data Outcome (Real : Type 0) : Type 0 where
  returned : RunExperimentResponse Real → Outcome Real
  budget_exceeded : String → ℕ → Outcome Real
  provider_failed : ErrorCode → String → Option String → Option Detail → Outcome Real
  value_error : String → Outcome Real
  other_error : String → Outcome Real

-- A call of `run_metrics`.
pub data Metric : Type 0 where
  run_succeeded : String → ℕ → Metric
  run_failed : String → String → ℕ → Metric

module _ (Real : Type 0) where
  pub record JobQueue : Type 0 where
    pub jobs : Dict (JobRecord Real)
    pub futures : Dict Task
    pub cancel_events : Dict Bool
    pub timers : Dict ℕ
    pub failure_counts : Dict ℕ
    pub store : Option (ExperimentStore (RunExperimentResponse Real))
    pub metrics : List Metric
    pub job_timeout_seconds : ℕ
    pub max_pending : ℕ
    pub is_shutdown : Bool
    pub executor_closed : Bool

  -- `sum(1 for r in self._jobs.values() if r.status in (QUEUED, RUNNING))`
  unfoldable pub active : Dict (JobRecord Real) → ℕ
  active jobs = tally (λ r. is_active r.status) jobs

  -- The first section of `enqueue`.
  unfoldable pub admit : JobQueue → Result String (Unit {0})
  admit q =
      if q.is_shutdown
      then raise "JobQueue is shutting down; cannot enqueue new jobs"
      else (if leb q.max_pending (active q.jobs)
          then raise "Queue is full; try again later"
          else ok tt)

  -- The second section of `enqueue`: the record and its cancel event.
  unfoldable pub insert : String → ℕ → RunExperimentRequest Real → JobQueue → JobQueue
  insert job_id now req q = record q {
    jobs = put job_id (new_record job_id now req) q.jobs;
    cancel_events = put job_id false q.cancel_events;
    futures = pop job_id q.futures;
  }

  -- `executor.submit`, and the section that keeps the future.
  unfoldable pub submit : String → JobQueue → JobQueue × Result String (Unit {0})
  submit job_id q =
      if q.executor_closed
      then (q, raise "cannot schedule new futures after shutdown")
      else (record q { futures = put job_id pending q.futures }, ok tt)

  -- `enqueue` with no other thread between its sections. The id is a new `uuid4`.
  unfoldable pub enqueue :
      String → ℕ → RunExperimentRequest Real → JobQueue → JobQueue × Result String String
  unfolding admit insert submit
  enqueue job_id now req q = elim (admit q) [
    | raise e ↦ (q, raise e)
    | ok _ ↦
        let (q', r) = submit job_id (insert job_id now req q) in
        (q', elim r [ raise e ↦ raise e | ok _ ↦ ok job_id ])
  ]

  -- `self._failure_counts[code] = self._failure_counts.get(code, 0) + 1`
  abbrev pub or_zero : Option ℕ → ℕ
  or_zero none = 0
  or_zero (some n) = n

  unfoldable pub count_failure : String → Dict ℕ → Dict ℕ
  count_failure code counts = put code (or_zero (get code counts) + 1) counts

  -- `ev = self._cancel_events.get(job_id)`, and `ev.set()` if there is one.
  unfoldable pub set_event : String → Dict Bool → Dict Bool
  set_event job_id events = elim (get job_id events) [
    | none ↦ events
    | some _ ↦ put job_id true events
  ]

  -- `fut.cancel()`: only a pending future is cancelled.
  abbrev pub cancel_task : Task → Task
  cancel_task pending = dropped
  cancel_task task = task

  unfoldable pub cancel_future : String → Dict Task → Dict Task
  cancel_future job_id futures = elim (get job_id futures) [
    | none ↦ futures
    | some task ↦ put job_id (cancel_task task) futures
  ]

  -- `_persist_failure`; an error of the store is passed over.
  unfoldable pub persist_failure :
      Option ℕ
      → ℕ
      → JobRecord Real
      → Option (ExperimentStore (RunExperimentResponse Real))
      → Option (ExperimentStore (RunExperimentResponse Real))
  persist_failure written now r none = none
  persist_failure written now r (some store) =
      some (Storage.add (λ run. run.id) (λ run. run.created_at) written (failure_run now r) store)

  -- The record that a failure leaves, and the rest of the state. `_failure_counts` gets one more
  -- of the code.
  unfoldable pub fail_job :
      Option ℕ
      → ℕ
      → String
      → ErrorCode
      → String
      → String
      → Option String
      → Detail
      → JobRecord Real
      → JobQueue
      → JobQueue
  unfolding count_failure persist_failure
  fail_job written now error code message job_id hint detail r q =
      let r' = record r {
        error = some error;
        error_code = some code;
        error_message = some message;
        action_hint = hint;
        error_detail = some detail;
        finished_at = some now;
        status = failed;
      } in
      record q {
        jobs = put job_id r' q.jobs;
        failure_counts = count_failure (code_value code) q.failure_counts;
        store = persist_failure written now r' q.store;
      }

  abbrev pub cancel_hint : String
  cancel_hint = "Retry the run or clear the queue if the workflow is stuck."

  -- `cancel`
  unfoldable pub cancel : Option ℕ → ℕ → String → String → JobQueue → JobQueue × Bool
  unfolding fail_job set_event cancel_future
  cancel written now job_id reason q = elim (get job_id q.jobs) [
    | none ↦ (q, false)
    | some r ↦ if is_terminal r.status then (q, false) else (
      fail_job written now reason cancelled reason job_id (some cancel_hint)
          (("code", text (code_value cancelled))
            ∷ ("message", text reason)
            ∷ ("action_hint", text cancel_hint)
            ∷ [])
          r
          (record q {
            cancel_events = set_event job_id q.cancel_events;
            futures = cancel_future job_id q.futures;
          }),
      true,
    )
  ]

  abbrev pub timeout_hint : String
  timeout_hint = "Try again with a smaller shot budget or fewer queued jobs."

  -- `_timeout_job`
  unfoldable pub timeout_job : Option ℕ → ℕ → String → JobQueue → JobQueue
  unfolding fail_job set_event cancel_future
  timeout_job written now job_id q = elim (get job_id q.jobs) [
    | none ↦ q
    | some r ↦
        if is_running r.status
        then fail_job written now "Timed out" timeout "Job exceeded timeout" job_id
            (some timeout_hint)
            (("code", text (code_value timeout))
              ∷ ("message", text "Job exceeded timeout")
              ∷ ("timeout_seconds", number q.job_timeout_seconds)
              ∷ ("action_hint", text timeout_hint)
              ∷ [])
            r
            (record q {
              cancel_events = set_event job_id q.cancel_events;
              futures = cancel_future job_id q.futures;
            })
        else q
  ]

  unfoldable pub set_all : Dict Bool → Dict Bool
  set_all [] = []
  set_all ((k, _) ∷ events) = (k, true) ∷ set_all events

  unfoldable pub cancel_all : Dict Task → Dict Task
  cancel_all [] = []
  cancel_all ((k, task) ∷ futures) = (k, cancel_task task) ∷ cancel_all futures

  -- `shutdown`, up to the wait for the futures that are left.
  unfoldable pub shutdown : JobQueue → JobQueue
  unfolding set_all cancel_all
  shutdown q = record q {
    is_shutdown = true;
    executor_closed = true;
    cancel_events = set_all q.cancel_events;
    futures = cancel_all q.futures;
  }
