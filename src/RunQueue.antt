-- ===== src/RunQueue.antt =====
-- backend/synqc_backend/run_queue.py: `RedisRunQueue`. Random ids and the clock's readings are
-- arguments, a pipeline is one atomic step, and the commands to the server do not fail.
pub mod Redis
pub mod Keys
pub mod Counters
pub mod Waiting
pub mod Claims
pub mod Traces
pub mod Balance
pub mod Accounts
use Prim.Native.String.{◌++◌ as str_append}
use syn_qc_temporal_dynamics.Prelude.{
  ℕ, ◌-◌, String, str_eq, Bool, true, false, Option, none, some, List, [], ◌∷◌, if◌then◌else◌,
  Result, ok, raise, ◌>>=◌,
}
use syn_qc_temporal_dynamics.Prelude.Int.{ℤ, pos, negsuc, ◌+ℤ◌}
use syn_qc_temporal_dynamics.Dict.{Dict, get, put}
use syn_qc_temporal_dynamics.Models.{
  Detail, Json, ErrorCode, code_value, RunExperimentRequest, RunExperimentResponse,
}
use syn_qc_temporal_dynamics.RunQueue.Redis.{
  Value, text, number, request, response, detail, RunServer, first, int_or_zero,
}

pub record QueuedRun (Real : Type 0) : Type 0 where
  pub id : String
  pub run_request : RunExperimentRequest Real
  pub session_id : String
  pub created_at : ℕ
  pub started_at : Option ℕ
  pub finished_at : Option ℕ

abbrev pub queue_key : String
queue_key = "synqc:runq:pending"

abbrev pub status_counts_key : String
status_counts_key = "synqc:runq:status_counts"

abbrev pub recent_key : String
recent_key = "synqc:runq:recent"

abbrev pub failure_code_key : String
failure_code_key = "synqc:runq:failure_codes"

abbrev pub failure_target_key : String
failure_target_key = "synqc:runq:failures_by_target"

-- `_job_key`
unfoldable pub job_key : String → String
job_key job_id = str_append "synqc:runq:job:" job_id

-- `d.setdefault(k, v)`
abbrev pub set_default : String → String → Detail → Detail
set_default k v d = elim (get k d) [ none ↦ put k (Json.text v) d | some old ↦ d ]

-- `if action_hint:`
abbrev pub hint_default : String → Detail → Detail
hint_default hint d = if str_eq hint "" then d else set_default "action_hint" hint d

abbrev pub or_empty : Option String → String
or_empty none = ""
or_empty (some t) = t

-- The detail that `complete_failure` writes.
unfoldable pub failure_detail : ErrorCode → String → Option String → Option Detail → Detail
failure_detail code message hint given = hint_default (or_empty hint) (
    set_default "message" message
      (set_default "code" (code_value code) (elim given [ none ↦ [] | some d ↦ d ])))

module _ {Real : Type 0} where
  -- `RunExperimentRequest.model_validate_json(req_json or "{}")`
  abbrev pub parse_request : Option (Value Real) → Option (RunExperimentRequest Real)
  parse_request (some (request r)) = some r
  parse_request _ = none

  abbrev pub text_or : String → Option (Value Real) → String
  text_or default (some (text t)) = t
  text_or default _ = default

  -- `float(data.get("created_at", time.time()))`
  abbrev pub created_or : ℕ → Option (Value Real) → Result String ℕ
  created_or now none = ok now
  created_or now (some (number n)) = ok n
  created_or now _ = raise "ValueError"

  -- The run that `claim_next` makes of a request and of the other fields.
  abbrev pub queued_run :
      ℕ
      → String
      → Dict (Value Real)
      → Option (RunExperimentRequest Real)
      → Result String (Option (QueuedRun Real))
  queued_run now job_id fields none = ok none
  queued_run now job_id fields (some req) = created_or now (get "created_at" fields) >>= λ created.
      ok (
        some (record {
          id = job_id;
          run_request = req;
          session_id = text_or "" (get "session_id" fields);
          created_at = created;
          started_at = none;
          finished_at = none;
        }))

  -- What `claim_next` makes of the hash of the popped job.
  abbrev pub claimed : ℕ → String → Dict (Value Real) → Result String (Option (QueuedRun Real))
  claimed now job_id [] = ok none
  claimed now job_id (entry ∷ entries) =
      queued_run now job_id (entry ∷ entries) (parse_request (get "request_json" (entry ∷ entries)))

-- What `stats` reports.
pub record Stats : Type 0 where
  pub total : ℤ
  pub queued : ℤ
  pub running : ℤ
  pub succeeded : ℤ
  pub failed : ℤ
  pub oldest_queued_age_s : Option ℕ
  pub max_workers : ℕ
  pub failure_codes : Dict ℤ
  pub failures_by_target : Dict ℤ

module _ {Real : Type 0} (redis : RunServer Real) where
  open redis use {Server, fields, counts, items, hset, hincrby, rpush, blpop, zadd}

  -- `enqueue`
  unfoldable pub enqueue : ℕ → String → RunExperimentRequest Real → String → Server → Server
  enqueue created_at job_id req session_id s =
      let m =
        ("status", text "queued")
        ∷ ("created_at", number created_at)
        ∷ ("session_id", text session_id)
        ∷ ("request_json", request req)
        ∷ [] in
      hincrby status_counts_key "queued" (pos 1)
        (zadd recent_key job_id created_at (rpush queue_key job_id (hset (job_key job_id) m s)))

  abbrev pub claimed_from :
      ℕ → Server × Option String → Server × Result String (Option (QueuedRun Real))
  claimed_from now (s, none) = (s, ok none)
  claimed_from now (s, some job_id) = (s, claimed now job_id (fields (job_key job_id) s))

  -- `claim_next`, where a list that stays empty for the timeout gives nothing.
  unfoldable pub claim_next : ℕ → Server → Server × Result String (Option (QueuedRun Real))
  claim_next now s = claimed_from now (blpop queue_key s)

  -- `mark_running`, of which the hash and the counters are two steps: the server and the run.
  unfoldable pub mark_running : ℕ → QueuedRun Real → Server → Server × QueuedRun Real
  mark_running now job s =
      let m =
        ("status", text "running")
        ∷ ("started_at", number now)
        ∷ ("created_at", number job.created_at)
        ∷ [] in
      (
        hincrby status_counts_key "running" (pos 1)
            (hincrby status_counts_key "queued" (negsuc 0) (hset (job_key job.id) m s)),
        record job { started_at = some now },
      )

  -- `complete_success`
  unfoldable pub complete_success :
      ℕ → QueuedRun Real → RunExperimentResponse Real → Server → Server × QueuedRun Real
  complete_success now job result s =
      let m =
        ("status", text "succeeded")
        ∷ ("finished_at", number now)
        ∷ ("result_json", response result)
        ∷ ("created_at", number job.created_at)
        ∷ [] in
      (
        hincrby status_counts_key "succeeded" (pos 1)
            (hincrby status_counts_key "running" (negsuc 0) (hset (job_key job.id) m s)),
        record job { finished_at = some now },
      )

  -- `if job.request.hardware_target:`
  abbrev pub count_target : String → Server → Server
  count_target target s =
      if str_eq target "" then s else hincrby failure_target_key target (pos 1) s

  -- The mapping that `complete_failure` writes.
  abbrev pub failure_fields :
      ℕ → QueuedRun Real → ErrorCode → String → Option String → Option Detail → Dict (Value Real)
  failure_fields now job code message hint given =
      ("status", text "failed")
      ∷ ("finished_at", number now)
      ∷ ("error", text message)
      ∷ ("error_code", text (code_value code))
      ∷ ("error_message", text message)
      ∷ ("error_detail", detail (failure_detail code message hint given))
      ∷ ("action_hint", text (or_empty hint))
      ∷ ("created_at", number job.created_at)
      ∷ []

  -- `complete_failure`
  unfoldable pub complete_failure :
      ℕ
      → QueuedRun Real
      → ErrorCode
      → String
      → Option String
      → Option Detail
      → Server
      → Server × QueuedRun Real
  complete_failure now job code message hint given s = (
    count_target job.run_request.hardware_target (
        hincrby failure_code_key (code_value code) (pos 1) (
          hincrby status_counts_key "failed" (pos 1) (
            hincrby status_counts_key "running" (negsuc 0)
              (hset (job_key job.id) (failure_fields now job code message hint given) s)))),
    record job { finished_at = some now },
  )

  -- The age of the job at the head of the list.
  abbrev pub oldest_age : ℕ → List String → Server → Option ℕ
  oldest_age now [] s = none
  oldest_age now (job_id ∷ ids) s = elim (get "created_at" (fields (job_key job_id) s)) [
    | some (number created) ↦ some (now - created)
    | some (text t) ↦ none
    | some (request r) ↦ none
    | some (response r) ↦ none
    | some (detail d) ↦ none
    | none ↦ none
  ]

  -- The number under a status.
  abbrev pub status_count : String → Server → ℤ
  status_count status s = int_or_zero (get status (counts status_counts_key s))

  -- `stats`
  unfoldable pub stats : ℕ → ℕ → Server → Stats
  stats now max_workers s = record {
    total =
        status_count "queued" s
        +ℤ status_count "running" s
        +ℤ status_count "succeeded" s
        +ℤ status_count "failed" s;
    queued = status_count "queued" s;
    running = status_count "running" s;
    succeeded = status_count "succeeded" s;
    failed = status_count "failed" s;
    oldest_queued_age_s = oldest_age now (items queue_key s) s;
    max_workers = max_workers;
    failure_codes = counts failure_code_key s;
    failures_by_target = counts failure_target_key s;
  }
