-- ===== src/JobStore/Fields.antt =====
-- The fields of one job in backend/synqc_backend/job_store.py.
use syn_qc_temporal_dynamics.Prelude.{
  ℕ, String, eq_iff, ◌≡◌, refl, false, Option, none, some, [], ◌∷◌, arith, ok, ◌∙◌, ap,
}
use syn_qc_temporal_dynamics.Dict.{Dict, get}
use syn_qc_temporal_dynamics.Models.{Detail}
use syn_qc_temporal_dynamics.JobStore.Redis.{Value, text, number, encoded, first, RedisServer}
use syn_qc_temporal_dynamics.JobStore.{
  JobStatus, queued, running, succeeded, failed, cancelled, status_value, parse_status, JobRecord,
  job_key, read_record, read_status, parse_created, parse_input, parse_float, parse_result,
  parse_error, text_or, record_or_none,
}

parse_status-value : (st : JobStatus) → parse_status (status_value st) ≡ some st
unfolding parse_status
parse_status-value queued = refl
parse_status-value running = refl
parse_status-value succeeded = refl
parse_status-value failed = refl
parse_status-value cancelled = refl

pub record_or_none-some :
    (id : String) (fields : Dict Value) (v : Value) (job : JobRecord)
    → get "status" fields ≡ some v
    → read_record id fields ≡ ok job
    → record_or_none id fields ≡ ok (some job)
unfolding get
record_or_none-some id [] v job h e = absurd (ground (arith, h))
record_or_none-some id (entry ∷ entries) v job h e = rw e refl

pub read_record-ok :
    (id : String) (fields : Dict Value) (st : JobStatus) (n k created : ℕ) (input : Detail)
    → (found : Option Detail) → get "status" fields ≡ some (text (status_value st))
    → get "attempts" fields ≡ some (number n)
    → get "max_attempts" fields ≡ some (number k)
    → get "created_at_unix" fields ≡ some (number created)
    → get "run_input_json" fields ≡ some (encoded input)
    → get "cancel_requested" fields ≡ some (text "0")
    → parse_result (get "result_json" fields) ≡ ok found
    → (job : JobRecord) × (read_record id fields ≡ ok job)
      × (job.status ≡ st)
      × (job.attempts ≡ n)
      × (job.max_attempts ≡ k)
      × (job.cancel_requested ≡ false)
unfolding read_record read_status parse_created parse_input
read_record-ok id fields st n k created input found a b c d e f g =
    let job : JobRecord = record {
      job_id = id;
      agent = text_or "" (get "agent" fields);
      status = st;
      created_at_unix = created;
      started_at_unix = parse_float (get "started_at_unix" fields);
      finished_at_unix = parse_float (get "finished_at_unix" fields);
      attempts = n;
      max_attempts = k;
      run_input = input;
      result = found;
      error = parse_error (get "error_json" fields);
      cancel_requested = false;
    } in
    (job, rw (a, b, c, d, e, f, g, parse_status-value st) refl, refl, refl, refl, refl)

module _ (redis : RedisServer) where
  open redis use {Server, hgetall, hset, hincr, field-hset, field-hincr}

  abbrev pub field : String → String → Server → Option Value
  field job_id f s = get f (hgetall (job_key job_id) s)

  -- The hash of a job that nobody has asked to cancel, with its status and its two numbers.
  pub record IsJob (id : String) (status : JobStatus) (attempts max_attempts : ℕ) (s : Server)
      : Type 0 where
    pub created : ℕ
    pub input : Detail
    pub status_field : field id "status" s ≡ some (text (status_value status))
    pub attempts_field : field id "attempts" s ≡ some (number attempts)
    pub max_field : field id "max_attempts" s ≡ some (number max_attempts)
    pub created_field : field id "created_at_unix" s ≡ some (number created)
    pub input_field : field id "run_input_json" s ≡ some (encoded input)
    pub cancel_field : field id "cancel_requested" s ≡ some (text "0")
    pub found : Option Detail
    pub result_field : parse_result (field id "result_json" s) ≡ ok found

  -- A server with the same fields has the same job.
  pub same-IsJob :
      (id : String) (st : JobStatus) (n k : ℕ) (s s' : Server)
      → ((f : String) → field id f s' ≡ field id f s)
      → IsJob id st n k s
      → IsJob id st n k s'
  same-IsJob id st n k s s' same j = record {
    created = j.created;
    input = j.input;
    status_field = same "status" ∙ j.status_field;
    attempts_field = same "attempts" ∙ j.attempts_field;
    max_field = same "max_attempts" ∙ j.max_field;
    created_field = same "created_at_unix" ∙ j.created_field;
    input_field = same "run_input_json" ∙ j.input_field;
    cancel_field = same "cancel_requested" ∙ j.cancel_field;
    found = j.found;
    result_field = ap parse_result (same "result_json") ∙ j.result_field;
  }

  pub field-hset_own :
      (id f : String) (m : Dict Value) (s : Server)
      → field id f (hset (job_key id) m s) ≡ first (get f m) (field id f s)
  field-hset_own id f m s =
      ground (arith, eq_iff (job_key id) (job_key id), field-hset (job_key id) (job_key id) f m s)

  -- A write of other fields keeps the job.
  pub hset-IsJob :
      (id : String) (st : JobStatus) (n k : ℕ) (m : Dict Value) (s : Server)
      → (found : Option Detail) → get "status" m ≡ none
      → get "attempts" m ≡ none
      → get "max_attempts" m ≡ none
      → get "created_at_unix" m ≡ none
      → get "run_input_json" m ≡ none
      → get "cancel_requested" m ≡ none
      → parse_result (first (get "result_json" m) (field id "result_json" s)) ≡ ok found
      → IsJob id st n k s
      → IsJob id st n k (hset (job_key id) m s)
  hset-IsJob id st n k m s found a b c d e f g j = record {
    created = j.created;
    input = j.input;
    status_field = field-hset_own id "status" m s ∙ rw a j.status_field;
    attempts_field = field-hset_own id "attempts" m s ∙ rw b j.attempts_field;
    max_field = field-hset_own id "max_attempts" m s ∙ rw c j.max_field;
    created_field = field-hset_own id "created_at_unix" m s ∙ rw d j.created_field;
    input_field = field-hset_own id "run_input_json" m s ∙ rw e j.input_field;
    cancel_field = field-hset_own id "cancel_requested" m s ∙ rw f j.cancel_field;
    found = found;
    result_field = ap parse_result (field-hset_own id "result_json" m s) ∙ g;
  }
