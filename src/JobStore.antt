-- ===== src/JobStore.antt =====
-- backend/synqc_backend/job_store.py: the records of the jobs, as hashes on the Redis server. A
-- value of the server stands for its text: `number` for what `str` writes of a number, `encoded`
-- for the JSON text of a dictionary and `error_json` for that of an error, which the field of that
-- name alone ever holds and which the other fields are taken to refuse. Random ids and the clock's
-- readings are arguments.
pub mod Redis
pub mod Fields
pub mod Updates
pub mod Creation
use Prim.Native.String.{◌++◌ as str_append}
use syn_qc_temporal_dynamics.Prelude.{
  ℕ, ◌+◌, String, str_eq, Bool, true, false, Option, none, some, List, [], ◌∷◌, ◌++◌, if◌then◌else◌,
  Result, ok, raise, ◌>>=◌,
}
use syn_qc_temporal_dynamics.Dict.{Dict, get, put}
use syn_qc_temporal_dynamics.Models.{Detail, flag}
use syn_qc_temporal_dynamics.JobStore.Redis.{
  Value, text, number, encoded, error_json, JobErrorInfo, RedisServer, number_or,
}

pub data JobStatus : Type 0 where
  queued running succeeded failed cancelled : JobStatus

-- `status.value`
abbrev pub status_value : JobStatus → String
status_value queued = "queued"
status_value running = "running"
status_value succeeded = "succeeded"
status_value failed = "failed"
status_value cancelled = "cancelled"

-- `JobStatus(raw)`
unfoldable pub parse_status : String → Option JobStatus
parse_status raw =
    if str_eq raw "queued"
    then some queued
    else if str_eq raw "running"
    then some running
    else if str_eq raw "succeeded"
    then some succeeded
    else if str_eq raw "failed"
    then some failed
    else if str_eq raw "cancelled"
    then some cancelled
    else none

pub record JobRecord : Type 0 where
  pub job_id : String
  pub agent : String
  pub status : JobStatus
  pub created_at_unix : ℕ
  pub started_at_unix : Option ℕ
  pub finished_at_unix : Option ℕ
  pub attempts : ℕ
  pub max_attempts : ℕ
  pub run_input : Detail
  pub result : Option Detail
  pub error : Option JobErrorInfo
  pub cancel_requested : Bool

-- `_key`
unfoldable pub job_key : String → String
job_key job_id = str_append "synqc:job:" job_id

-- `_idempotency_key`
unfoldable pub idempotency_key : String → String → String
idempotency_key agent key = str_append "synqc:idempotency:" (str_append agent (str_append ":" key))

-- The mapping that `create_job` writes.
abbrev pub new_fields : String → ℕ → ℕ → Detail → Dict Value
new_fields agent now max_attempts run_input =
    ("agent", text agent)
    ∷ ("status", text (status_value queued))
    ∷ ("created_at_unix", number now)
    ∷ ("started_at_unix", text "")
    ∷ ("finished_at_unix", text "")
    ∷ ("attempts", number 0)
    ∷ ("max_attempts", number max_attempts)
    ∷ ("run_input_json", encoded run_input)
    ∷ ("result_json", text "")
    ∷ ("error_json", text "")
    ∷ ("cancel_requested", text "0")
    ∷ []

-- `parse_float`: a text that is no number gives nothing.
abbrev pub parse_float : Option Value → Option ℕ
parse_float (some (number n)) = some n
parse_float _ = none

-- `_json_loads(data.get("run_input_json", "{}") or "{}")`, which raises on any other text.
unfoldable pub parse_input : Option Value → Result String Detail
parse_input none = ok []
parse_input (some (encoded d)) = ok d
parse_input (some (text t)) = if str_eq t "" then ok [] else raise "JSONDecodeError"
parse_input (some (number n)) = raise "ValidationError"
parse_input (some (error_json e)) = raise "ValidationError"

abbrev pub unparsed : Detail
unparsed = ("_parse_error", flag true) ∷ []

-- A number is no dictionary, which the record refuses.
unfoldable pub parse_result : Option Value → Result String (Option Detail)
parse_result none = ok none
parse_result (some (encoded d)) = ok (some d)
parse_result (some (text t)) = if str_eq t "" then ok none else ok (some unparsed)
parse_result (some (number n)) = raise "ValidationError"
parse_result (some (error_json e)) = raise "ValidationError"

abbrev pub unknown_error : JobErrorInfo
unknown_error = record {
  code = "unknown_error";
  message = "Failed to parse stored error.";
  details = [];
}

unfoldable pub parse_error : Option Value → Option JobErrorInfo
parse_error none = none
parse_error (some (error_json e)) = some e
parse_error (some (text t)) = if str_eq t "" then none else some unknown_error
parse_error (some (number n)) = some unknown_error
parse_error (some (encoded d)) = some unknown_error

-- `float(data.get("created_at_unix", "0") or "0")`
unfoldable pub parse_created : Option Value → Result String ℕ
parse_created none = ok 0
parse_created (some (number n)) = ok n
parse_created (some (text t)) = if str_eq t "" then ok 0 else raise "ValueError"
parse_created (some (encoded d)) = raise "ValueError"
parse_created (some (error_json e)) = raise "ValueError"

abbrev pub status_or_raise : Option JobStatus → Result String JobStatus
status_or_raise none = raise "ValueError"
status_or_raise (some status) = ok status

-- `JobStatus(data.get("status", "failed"))`
unfoldable pub read_status : Option Value → Result String JobStatus
unfolding parse_status
read_status none = ok failed
read_status (some (text t)) = status_or_raise (parse_status t)
read_status _ = raise "ValueError"

abbrev pub is_text : Option Value → String → Bool
is_text (some (text t)) u = str_eq t u
is_text _ u = false

abbrev pub text_or : String → Option Value → String
text_or default (some (text t)) = t
text_or default _ = default

-- The record that `get_job` makes of a hash that is not empty.
unfoldable pub read_record : String → Dict Value → Result String JobRecord
unfolding parse_input parse_result parse_error parse_created read_status
read_record job_id fields = read_status (get "status" fields) >>= λ st.
    parse_created (get "created_at_unix" fields) >>= λ created.
    parse_input (get "run_input_json" fields) >>= λ input.
    parse_result (get "result_json" fields) >>= λ found. ok (record {
      job_id = job_id;
      agent = text_or "" (get "agent" fields);
      status = st;
      created_at_unix = created;
      started_at_unix = parse_float (get "started_at_unix" fields);
      finished_at_unix = parse_float (get "finished_at_unix" fields);
      attempts = number_or 0 (get "attempts" fields);
      max_attempts = number_or 3 (get "max_attempts" fields);
      run_input = input;
      result = found;
      error = parse_error (get "error_json" fields);
      cancel_requested = is_text (get "cancel_requested" fields) "1";
    })

-- `if not data: return None`
abbrev pub record_or_none : String → Dict Value → Result String (Option JobRecord)
record_or_none job_id [] = ok none
record_or_none job_id (entry ∷ entries) =
    read_record job_id (entry ∷ entries) >>= λ job. ok (some job)

module _ (redis : RedisServer) where
  open redis use {Server, value, hgetall, set_ex, hset, hincr, expire}

  -- `create_job`: the server after it, the id, and whether it is the id of an older job.
  unfoldable pub create_job :
      ℕ → String → String → Detail → Option String → ℕ → ℕ → ℕ → Server → Server × String × Bool
  create_job now job_id agent run_input idempotency max_attempts job_ttl idempotency_ttl s =
      let fields = new_fields agent now max_attempts run_input in
      let s' = expire (job_key job_id) job_ttl (hset (job_key job_id) fields s) in
      elim idempotency [
        | none ↦ (s', job_id, false)
        | some key ↦
            if str_eq key ""
            then (s', job_id, false)
            else elim (value (idempotency_key agent key) s) [
              | some existing ↦
                  if str_eq existing ""
                  then (set_ex (idempotency_key agent key) idempotency_ttl job_id s', job_id, false)
                  else (s, existing, true)
              | none ↦ (set_ex (idempotency_key agent key) idempotency_ttl job_id s', job_id, false)
            ]
      ]

  -- `get_job`
  unfoldable pub get_job : String → Server → Result String (Option JobRecord)
  get_job job_id s = record_or_none job_id (hgetall (job_key job_id) s)

  abbrev pub times : ℕ → Bool → Bool → Dict Value
  times now true true = ("started_at_unix", number now) ∷ ("finished_at_unix", number now) ∷ []
  times now true false = ("started_at_unix", number now) ∷ []
  times now false true = ("finished_at_unix", number now) ∷ []
  times now false false = []

  -- `update_status`, with whether the start and the end are noted.
  unfoldable pub update_status : ℕ → String → JobStatus → Bool → Bool → Server → Server
  update_status now job_id status is_start is_end s =
      hset (job_key job_id) (("status", text (status_value status)) ∷ times now is_start is_end) s

  -- `increment_attempts`: the server after it, and the new number.
  unfoldable pub increment_attempts : String → Server → Server × ℕ
  increment_attempts job_id s =
      let s' = hincr (job_key job_id) "attempts" s in
      (s', number_or 0 (get "attempts" (hgetall (job_key job_id) s')))

  unfoldable pub set_result : String → Detail → Server → Server
  set_result job_id result s = hset (job_key job_id) (("result_json", encoded result) ∷ []) s

  unfoldable pub set_error : String → JobErrorInfo → Server → Server
  set_error job_id error s = hset (job_key job_id) (("error_json", error_json error) ∷ []) s

  unfoldable pub request_cancel : String → Server → Server
  request_cancel job_id s = hset (job_key job_id) (("cancel_requested", text "1") ∷ []) s
