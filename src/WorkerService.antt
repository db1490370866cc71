-- ===== src/WorkerService.antt =====
-- backend/synqc_backend/worker_service.py: `process_one`. The agent runs in a process of its own,
-- whose outcome is an argument, like the clock's readings and the text of the heartbeat. The messages
-- of a timeout and of a retry stand without their numbers.
pub mod Attempts
use Prim.Native.String.{◌++◌ as str_append, find, len}
use syn_qc_temporal_dynamics.Prelude.{
  ℕ, zero, suc, ◌+◌, ◌-◌, ◌^◌, String, Bool, true, false, not, ◌&&◌, ◌||◌, Option, none, some, List,
  [], ◌∷◌, leb, ltb, ◌==◌, if◌then◌else◌, min, Result, ok, raise,
}
use syn_qc_temporal_dynamics.Models.{Detail}
use syn_qc_temporal_dynamics.Models.{Json}
use syn_qc_temporal_dynamics.JobStore.Redis.{RedisServer, JobErrorInfo}
use syn_qc_temporal_dynamics.JobStore.{
  JobStatus, queued, running, succeeded, failed, cancelled, JobRecord, get_job, update_status,
  increment_attempts, set_result, set_error,
}
use syn_qc_temporal_dynamics.Queueing.{dequeue, pump_delayed, schedule_delayed}

-- What the process of an agent leaves: it is still alive at the timeout, it put nothing into the
-- queue, or it put a result or an error there. `lowered` is the text that the markers are looked
-- for in, `f"{err_type}: {message}".lower()`.
pub data Outcome : Type 0 where
  timed_out no_result : Outcome
  result : Detail → Outcome
  error : (err_type message traceback lowered : String) → Outcome

abbrev pub markers : List String
markers =
    "timeout" ∷ "timed out" ∷ "temporarily unavailable" ∷ "connection reset" ∷ "connection refused"
    ∷ "503" ∷ "429" ∷ []

-- `part in whole`
unfoldable pub contains : String → String → Bool
contains whole part = leb (find whole part) (len whole)

abbrev pub any_in : String → List String → Bool
any_in blob [] = false
any_in blob (m ∷ ms) = contains blob m || any_in blob ms

-- `_is_transient_error`
unfoldable pub is_transient_error : String → Bool
is_transient_error lowered = any_in lowered markers

-- `min(60.0, float(2 ** (attempt - 1)))`
unfoldable pub delay_of : ℕ → ℕ
delay_of attempt = min 60 (2 ^ (attempt - 1))

-- `int(job.max_attempts or 3)`
unfoldable pub attempts_allowed : ℕ → ℕ
attempts_allowed zero = 3
attempts_allowed (suc n) = suc n

abbrev pub plain_error : String → String → JobErrorInfo
plain_error code message = record { code = code; message = message; details = [] }

abbrev pub retry_error : String → String → JobErrorInfo
retry_error err_type message = record {
  code = "retry_scheduled";
  message = "Transient error; retrying";
  details = ("err_type", Json.text err_type) ∷ ("message", Json.text message) ∷ [];
}

abbrev pub failure_error : String → String → String → JobErrorInfo
failure_error err_type message traceback = record {
  code = "agent_failed";
  message = message;
  details = ("err_type", Json.text err_type) ∷ ("traceback", Json.text traceback) ∷ [];
}

module _ (redis : RedisServer) where
  open redis use {Server, set_ex}

  -- The job ends with an error.
  abbrev pub fail_with : ℕ → String → JobErrorInfo → Server → Server
  fail_with now job_id e s =
      update_status redis now job_id failed false true (set_error redis job_id e s)

  -- What follows the run of the agent, at the given attempt.
  unfoldable pub settle : ℕ → String → String → ℕ → ℕ → Outcome → Server → Server
  unfolding is_transient_error delay_of attempts_allowed
  settle now queue_name job_id max_attempts attempt timed_out s =
      fail_with now job_id (plain_error "timeout" "Job exceeded the timeout and was terminated.") s
  settle now queue_name job_id max_attempts attempt no_result s =
      fail_with now job_id
        (plain_error "worker_error" "Worker finished without returning a result.") s
  settle now queue_name job_id max_attempts attempt (result r) s =
      update_status redis now job_id succeeded false true (set_result redis job_id r s)
  settle now queue_name job_id max_attempts attempt (error err_type message traceback lowered) s =
      if ltb attempt (attempts_allowed max_attempts) && is_transient_error lowered
      then schedule_delayed redis now queue_name job_id (delay_of attempt) (
          update_status redis now job_id queued false false
            (set_error redis job_id (retry_error err_type message) s))
      else fail_with now job_id (failure_error err_type message traceback) s

  -- The job's part of `process_one`, from `get_job` on.
  abbrev pub work_on : ℕ → String → String → Outcome → Server → Option JobRecord → Server
  work_on now queue_name job_id outcome s none = s
  work_on now queue_name job_id outcome s (some job) =
      if job.cancel_requested
      then update_status redis now job_id cancelled false true s
      else (let (s', attempt) =
            increment_attempts redis job_id (update_status redis now job_id running true false s) in
          settle now queue_name job_id job.max_attempts attempt outcome s')

  -- An exception of `get_job` leaves the server as it is, and goes on to the caller.
  unfoldable pub work : ℕ → String → String → Outcome → Server → Server × Result String Unit
  work now queue_name job_id outcome s = elim (get_job redis job_id s) [
    | ok found ↦ (work_on now queue_name job_id outcome s found, ok tt)
    | raise e ↦ (s, raise e)
  ]

  -- `_write_heartbeat`, which writes for the idle worker too.
  unfoldable pub write_heartbeat :
      ℕ → String → (Option String → String) → Option String → Server → Server
  write_heartbeat ttl worker_id payload current_job s =
      set_ex (str_append "synqc:worker:" worker_id) ttl (payload current_job) s

  -- `process_one`: the server after it, and whether there was a job.
  unfoldable pub process_one :
      ℕ
      → ℕ
      → String
      → String
      → (Option String → String)
      → Outcome
      → Server
      → Server × Result String Bool
  process_one now ttl queue_name worker_id payload outcome s =
      let (s', taken) = dequeue redis queue_name (pump_delayed redis 100 now queue_name s).0 in
      elim taken [
        | none ↦ (write_heartbeat ttl worker_id payload none s', ok false)
        | some job_id ↦
            let (s'', done) =
              work now queue_name job_id outcome
                (write_heartbeat ttl worker_id payload (some job_id) s') in
            elim done [ ok _ ↦ (s'', ok true) | raise e ↦ (s'', raise e) ]
      ]
